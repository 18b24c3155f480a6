-- ===== src/Ext2/Dirent/Laws.antt =====
-- When the loop of `read_dirent` of project 3a/ImgReader.c ends.
use mathlib.Core.Path.{subst}
use some_low_level_tasks.Prelude.{
  ℕ, zero, suc, ◌+◌, ◌*◌, ◌≤◌, ◌<◌, ◌≡◌, ◌≢◌, refl, ◌==◌, ltb, not, ◌&&◌, true, false, inl, inr,
  Option, none, some, List, [], ◌∷◌, arith, Bool-cases, ne→==,
}
use some_low_level_tasks.Ext2.Image.{Disk, block_size, int32}
use some_low_level_tasks.Ext2.Dirent.{DirEntry, entry_at, scan_dirents, read_block_dirents}

-- The offsets at which the loop looks for an entry.
pub data Visited (disk : Disk) (block : ℕ) : ℕ → Type 0 where
  first : Visited disk block 0
  next :
      {offset : ℕ}
      → Visited disk block offset
      → Visited disk block (offset + (entry_at disk (block * block_size + offset)).rec_len)

-- Each entry of the block has a length.
abbrev pub HasLengths : Disk → ℕ → Type 0
HasLengths disk block =
    (offset : ℕ)
    → Visited disk block offset
    → offset < block_size
    → (entry_at disk (block * block_size + offset)).inode ≢ 0
    → 1 ≤ (entry_at disk (block * block_size + offset)).rec_len

scan_dirents_stop :
    (disk : Disk) (fuel block offset feeler : ℕ)
    → (not (feeler == 0) && ltb offset block_size) ≡ false
    → scan_dirents disk (suc fuel) block offset feeler ≡ some []
unfolding scan_dirents
scan_dirents_stop disk fuel block offset feeler e = rw e

scan_dirents_more :
    (disk : Disk) (fuel block offset feeler : ℕ) (o : Option (List DirEntry))
    → (not (feeler == 0) && ltb offset block_size) ≡ true
    → scan_dirents disk fuel block
        (offset + (entry_at disk (block * block_size + offset)).rec_len)
        (int32 disk
          (block * block_size + offset + (entry_at disk (block * block_size + offset)).rec_len))
      ≡ o
    → scan_dirents disk (suc fuel) block offset feeler
      ≡ elim o [ none ↦ none | some es ↦ some (entry_at disk (block * block_size + offset) ∷ es) ]
unfolding scan_dirents
scan_dirents_more disk fuel block offset feeler o e rest = rw (e, rest)

add_assoc : (a b c : ℕ) → a + b + c ≡ a + (b + c)
add_assoc a b c = omega arith

scan_dirents_ends :
    (disk : Disk) (block : ℕ)
    → HasLengths disk block
    → (fuel offset : ℕ) → Visited disk block offset
    → 1 ≤ fuel
    → block_size < offset + fuel
    → (es : List DirEntry) × (scan_dirents disk fuel block offset
          (int32 disk (block * block_size + offset))
        ≡ some es)
scan_dirents_ends disk block lengths zero offset v h m = absurd (omega arith)
scan_dirents_ends disk block lengths (suc fuel) offset v h m =
    let at : ℕ = block * block_size + offset in
    elim (Bool-cases (not (int32 disk at == 0) && ltb offset block_size)) [
      | inr stop ↦ ([], scan_dirents_stop disk fuel block offset _ stop)
      | inl more ↦
          let long : 1 ≤ (entry_at disk at).rec_len =
            lengths offset v (ground arith) (ground arith) in
          let inside : offset < block_size = ground arith in
          let (es, rest) =
            scan_dirents_ends disk block lengths fuel (offset + (entry_at disk at).rec_len) (next v)
              (omega arith) (omega arith) in
          (
            entry_at disk at ∷ es,
            scan_dirents_more disk fuel block offset _ (some es) more
                (rw (add_assoc (block * block_size) offset (entry_at disk at).rec_len) rest),
          )
    ]

add_zero : (a : ℕ) → a + 0 ≡ a
add_zero a = omega arith

-- Where each entry that the loop meets in a block has a length, the loop ends within 1025 rounds.
pub read_block_dirents_ends :
    (disk : Disk) (read_block : ℕ)
    → HasLengths disk read_block
    → (es : List DirEntry) × (read_block_dirents disk 1025 read_block ≡ some es)
unfolding read_block_dirents
read_block_dirents_ends disk read_block lengths =
    rw (← add_zero (read_block * block_size))
      (scan_dirents_ends disk read_block lengths 1025 0 first (omega arith) (omega arith))

scan_dirents_loops :
    (disk : Disk) (block : ℕ)
    → (entry_at disk (block * block_size + 0)).inode ≢ 0
    → (entry_at disk (block * block_size + 0)).rec_len ≡ 0
    → (fuel : ℕ) → scan_dirents disk fuel block 0 (int32 disk (block * block_size + 0)) ≡ none
unfolding scan_dirents
scan_dirents_loops disk block some_inode no_length zero = refl
scan_dirents_loops disk block some_inode no_length (suc fuel) =
    scan_dirents_more disk fuel block 0 _ none (rw (ne→== _ 0 some_inode)) (
      rw (no_length, add_assoc (block * block_size) 0 0)
        (scan_dirents_loops disk block some_inode no_length fuel))

-- A block whose first entry has an inode and length 0 is read for ever: no number of rounds is enough.
pub read_block_dirents_loops :
    (disk : Disk) (fuel read_block : ℕ)
    → (entry_at disk (read_block * block_size)).inode ≢ 0
    → (entry_at disk (read_block * block_size)).rec_len ≡ 0
    → read_block_dirents disk fuel read_block ≡ none
unfolding read_block_dirents
read_block_dirents_loops disk fuel read_block some_inode no_length =
    subst
      (λ p.
        (entry_at disk p).inode ≢ 0
        → (entry_at disk p).rec_len ≡ 0
        → scan_dirents disk fuel read_block 0 (int32 disk p) ≡ none)
      (add_zero (read_block * block_size)) (λ i l. scan_dirents_loops disk read_block i l fuel)
      some_inode no_length
