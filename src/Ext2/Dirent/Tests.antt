-- ===== src/Ext2/Dirent/Tests.antt =====
-- The loop of `read_dirent` of project 3a/ImgReader.c at two blocks.
use some_low_level_tasks.Prelude.{◌≡◌, ◌==◌, if◌then◌else◌, some, List, refl, arith, length}
use some_low_level_tasks.Ext2.Image.{Disk}
use some_low_level_tasks.Ext2.Dirent.{DirEntry, read_block_dirents, scan_dirents}
use some_low_level_tasks.Ext2.Dirent.Laws.{read_block_dirents_ends}

-- Every entry has length 257.
abbrev ones : Disk
ones p = 1

-- Block 1 begins with an entry of inode 2 and length 0.
abbrev endless : Disk
endless p = if p == 1024 then 2 else 0

read_block_dirents_ends_example : (es : List DirEntry) × (read_block_dirents ones 1025 1 ≡ some es)
read_block_dirents_ends_example = read_block_dirents_ends ones 1 (λ offset v l n. omega arith)

ones_run : (es : List DirEntry) × (read_block_dirents ones 5 1 ≡ some es) × (length es ≡ 4)
unfolding read_block_dirents scan_dirents
ones_run = (_, refl, refl)
