-- ===== src/Ext2/Indirect/Laws.antt =====
-- What `indirect_recursive` of project 3a/ImgReader.c lists.
use some_low_level_tasks.Prelude.{
  ℕ, zero, suc, ◌+◌, ◌*◌, ◌≤◌, ◌<◌, ◌≡◌, refl, true, ◌⊎◌, inl, inr, List, [], ◌∷◌, ◌++◌, arith,
  Bool-cases,
}
use some_low_level_tasks.Ext2.Image.{Disk, block_size, int32, is_positive}
use some_low_level_tasks.Ext2.Indirect.{
  IndirectEntry, first_logical, scan_block, nothing, indirect_recursive,
}

abbrev pub All : (IndirectEntry → Type 0) → List IndirectEntry → Type 0
All p [] = Unit {0}
All p (e ∷ es) = p e × All p es

abbrev pub In : IndirectEntry → List IndirectEntry → Type 0
In e [] = ⊥
In e (f ∷ es) = (e ≡ f) ⊎ In e es

All-append :
    (p : IndirectEntry → Type 0) (xs ys : List IndirectEntry)
    → All p xs
    → All p ys
    → All p (xs ++ ys)
All-append p [] ys a b = b
All-append p (x ∷ xs) ys a b = (a.0, All-append p xs ys a.1 b)

In-append_left : (e : IndirectEntry) (xs ys : List IndirectEntry) → In e xs → In e (xs ++ ys)
In-append_left e [] ys i = absurd i
In-append_left e (x ∷ xs) ys (inl same) = inl same
In-append_left e (x ∷ xs) ys (inr i) = inr (In-append_left e xs ys i)

In-append_right : (e : IndirectEntry) (xs ys : List IndirectEntry) → In e ys → In e (xs ++ ys)
In-append_right e [] ys i = i
In-append_right e (x ∷ xs) ys i = inr (In-append_right e xs ys i)

-- An entry of the right inode, whose block is a pointer of its indirect block, with a level and an
-- offset in the given bounds.
pub record IsEntry (disk : Disk) (inode levels low high : ℕ) (e : IndirectEntry) : Type 0 where
  pub of_inode : e.inode ≡ inode
  pub level : e.indirect_level ≤ levels
  pub above : low ≤ e.block_offset
  pub beneath : e.block_offset ≤ high
  pub position : ℕ
  pub in_block : position + 4 ≤ block_size
  pub points : int32 disk (e.indirect_block * block_size + position) ≡ e.referenced_block
  pub is_block : is_positive e.referenced_block ≡ true

scan_block-IsEntry :
    (disk : Disk) (below : ℕ → ℕ → List IndirectEntry)
    (root level inode left offset logical low high spread : ℕ)
    → low ≤ logical
    → logical + left + spread ≤ high + 1
    → offset + left * 4 ≤ block_size
    → ((block at : ℕ)
        → low ≤ at
        → at + spread ≤ high
        → All (IsEntry disk inode level low high) (below block at))
    → All
        (IsEntry disk inode level low high)
        (scan_block disk below root level inode left offset logical)
unfolding scan_block
scan_block-IsEntry disk below root level inode zero offset logical low high spread l u o b = tt
scan_block-IsEntry disk below root level inode (suc left) offset logical low high spread l u o b =
    All-append (IsEntry disk inode level low high) _ _
      (elim (Bool-cases (is_positive (int32 disk (root * block_size + offset)))) [
        | inl found ↦ rw found (
          record {
            of_inode = refl;
            level = omega arith;
            above = l;
            beneath = omega arith;
            position = offset;
            in_block = omega arith;
            points = refl;
            is_block = found;
          },
          b (int32 disk (root * block_size + offset)) logical l (omega arith),
        )
        | inr unused ↦ rw unused tt
      ])
      (scan_block-IsEntry disk below root level inode left (offset + 4) (logical + 1) low high
        spread (omega arith) (omega arith) (omega arith) b)

IsEntry-weaken :
    (disk : Disk) (inode levels low high levels' low' high' : ℕ) (e : IndirectEntry)
    → levels ≤ levels'
    → low' ≤ low
    → high ≤ high'
    → IsEntry disk inode levels low high e
    → IsEntry disk inode levels' low' high' e
IsEntry-weaken disk inode levels low high levels' low' high' e l m h i = record {
  of_inode = i.of_inode;
  level = omega (arith, i.level);
  above = omega (arith, i.above);
  beneath = omega (arith, i.beneath);
  position = i.position;
  in_block = i.in_block;
  points = i.points;
  is_block = i.is_block;
}

All-map :
    (p q : IndirectEntry → Type 0) (es : List IndirectEntry)
    → ((e : IndirectEntry) → p e → q e)
    → All p es
    → All q es
All-map p q [] f a = tt
All-map p q (e ∷ es) f a = (f e a.0, All-map p q es f a.1)

first_logical_ge : (level logical : ℕ) → 1 ≤ first_logical level logical
first_logical_ge level logical = ground arith

first_logical_below : (level at : ℕ) → 1 ≤ at → first_logical level at ≡ at
first_logical_below level at h = ground arith

-- Every entry that `indirect_recursive` lists for a block has the given inode and at most the given
-- level; its referenced block is a positive pointer that stands in its indirect block; and its offset
-- is at least the first one of the level and exceeds it by at most 255 for each level. So no entry of a
-- doubly indirect block has an offset above 778.
pub indirect_recursive-IsEntry :
    (disk : Disk) (level block inode logical : ℕ)
    → All
        (IsEntry disk inode
          (suc level)
          (first_logical (suc level) logical)
          (first_logical (suc level) logical + 255 * suc level))
        (indirect_recursive disk (suc level) block inode logical)
unfolding indirect_recursive
indirect_recursive-IsEntry disk zero block inode logical =
    scan_block-IsEntry disk nothing block 1 inode 256 0 (first_logical 1 logical)
      (first_logical 1 logical) _ 0 (omega arith) (omega arith) (omega arith) (λ found at l h. tt)
indirect_recursive-IsEntry disk (suc level) block inode logical =
    scan_block-IsEntry disk _ block (suc (suc level)) inode 256 0
      (first_logical (suc (suc level)) logical) (first_logical (suc (suc level)) logical) _
      (255 * suc level) (omega arith) (omega arith) (omega arith)
      (λ found at l h.
        let first : first_logical (suc level) at ≡ at =
          first_logical_below (suc level) at
            (omega (arith, l, first_logical_ge (suc (suc level)) logical)) in
        All-map _ _ (indirect_recursive disk (suc level) found inode at)
          (λ e.
            IsEntry-weaken disk inode (suc level) (first_logical (suc level) at)
              (first_logical (suc level) at + 255 * suc level) (suc (suc level)) _ _ e (omega arith)
              (omega (arith, first, l)) (omega (arith, first, h)))
          (indirect_recursive-IsEntry disk level found inode at))

scan_block-In :
    (disk : Disk) (below : ℕ → ℕ → List IndirectEntry)
    (root level inode left offset logical k p at : ℕ)
    → k < left
    → p ≡ offset + k * 4
    → at ≡ logical + k
    → is_positive (int32 disk (root * block_size + p)) ≡ true
    → In
        (record {
          inode = inode;
          indirect_level = level;
          block_offset = at;
          indirect_block = root;
          referenced_block = int32 disk (root * block_size + p);
        })
        (scan_block disk below root level inode left offset logical)
unfolding scan_block
scan_block-In disk below root level inode zero offset logical k p at h e f pos =
    absurd (omega arith)
scan_block-In disk below root level inode (suc left) offset logical zero p at h e f pos =
    let same : p ≡ offset = omega arith in
    let first : at ≡ logical = omega arith in rw (← same, ← first, pos) (inl refl)
scan_block-In disk below root level inode (suc left) offset logical (suc k) p at h e f pos =
    In-append_right _ _ (scan_block disk below root level inode left (offset + 4) (logical + 1)) (
      scan_block-In disk below root level inode left (offset + 4) (logical + 1) k p at (omega arith)
        (omega arith) (omega arith) pos)

-- For each of the 256 pointers of a block that is positive, `indirect_recursive` lists an entry with the
-- level of the call, the block, the pointer, and the first offset of the level plus its index.
pub indirect_recursive-In :
    (disk : Disk) (level block inode logical k : ℕ)
    → k < 256
    → is_positive (int32 disk (block * block_size + k * 4)) ≡ true
    → In
        (record {
          inode = inode;
          indirect_level = suc level;
          block_offset = first_logical (suc level) logical + k;
          indirect_block = block;
          referenced_block = int32 disk (block * block_size + k * 4);
        })
        (indirect_recursive disk (suc level) block inode logical)
unfolding indirect_recursive
indirect_recursive-In disk zero block inode logical k h pos =
    scan_block-In disk _ block 1 inode 256 0 _ k (k * 4) _ h (omega arith) refl pos
indirect_recursive-In disk (suc level) block inode logical k h pos =
    scan_block-In disk _ block (suc (suc level)) inode 256 0 _ k (k * 4) _ h (omega arith) refl pos
