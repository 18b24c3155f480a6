-- ===== src/Ext2/Dirent.antt =====
-- `read_dirent` of project 3a/ImgReader.c, for one block of a directory.
use some_low_level_tasks.Prelude.{
  ℕ, zero, suc, ◌+◌, ◌*◌, ◌==◌, ltb, not, ◌&&◌, Option, none, some, List, [], ◌∷◌, replicate,
  length, if◌then◌else◌,
}
use some_low_level_tasks.Ext2.Image.{Disk, block_size, int16, int32}
pub mod Laws
mod Tests

-- `struct ext2_dir_entry`, the name as the bytes that were stored.
pub record DirEntry : Type 0 where
  pub inode : ℕ
  pub rec_len : ℕ
  pub name_len : ℕ
  pub file_type : ℕ
  pub name : List ℕ

-- The copy by `strncpy`: a NUL ends the name, and NULs follow it.
abbrev pub copy_name : Disk → (left p : ℕ) → List ℕ
copy_name disk zero p = []
copy_name disk (suc left) p =
    if disk p == 0 then replicate (suc left) 0 else disk p ∷ copy_name disk left (p + 1)

-- The eight bytes in front of the name, and the name. The source copies a whole structure from a buffer of
-- eight bytes; what that brings behind them is overwritten as far as the name goes, and not read.
abbrev pub entry_at : Disk → ℕ → DirEntry
entry_at disk p = record {
  inode = int32 disk p;
  rec_len = int16 disk (p + 4);
  name_len = disk (p + 6);
  file_type = disk (p + 7);
  name = copy_name disk (disk (p + 6)) (p + 8);
}

-- The `while` loop over a block; `none` is a loop that has not ended after `fuel` rounds. The four
-- bytes of `feeler` are read where the next entry begins.
unfoldable pub scan_dirents : Disk → (fuel block offset feeler : ℕ) → Option (List DirEntry)
scan_dirents disk zero block offset feeler = none
scan_dirents disk (suc fuel) block offset feeler =
    let e = entry_at disk (block * block_size + offset) in
    let rest =
      scan_dirents disk fuel block (offset + e.rec_len)
        (int32 disk (block * block_size + offset + e.rec_len)) in
    if not (feeler == 0) && ltb offset block_size
    then elim rest [ none ↦ none | some es ↦ some (e ∷ es) ]
    else some []

-- `read_block > 0` holds for the blocks that are read.
unfoldable pub read_block_dirents : Disk → (fuel read_block : ℕ) → Option (List DirEntry)
read_block_dirents disk fuel read_block =
    scan_dirents disk fuel read_block 0 (int32 disk (read_block * block_size))
