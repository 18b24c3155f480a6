-- ===== src/Ext2/Indirect/Tests.antt =====
-- The theorems on `indirect_recursive` of project 3a/ImgReader.c at a small image.
use some_low_level_tasks.Prelude.{◌==◌, if◌then◌else◌, refl, arith}
use some_low_level_tasks.Ext2.Image.{Disk}
use some_low_level_tasks.Ext2.Indirect.{indirect_recursive}
use some_low_level_tasks.Ext2.Indirect.Laws.{
  All, In, IsEntry, indirect_recursive-IsEntry, indirect_recursive-In,
}

-- Block 3 points to block 9 with its second pointer.
abbrev disk : Disk
disk p = if p == 3076 then 9 else 0

indirect_recursive-IsEntry_example :
    All (IsEntry disk 7 2 268 778) (indirect_recursive disk 2 3 7 0)
indirect_recursive-IsEntry_example = indirect_recursive-IsEntry disk 1 3 7 0

indirect_recursive-In_example :
    In
      (record {
        inode = 7;
        indirect_level = 2;
        block_offset = 269;
        indirect_block = 3;
        referenced_block = 9;
      })
      (indirect_recursive disk 2 3 7 0)
indirect_recursive-In_example = indirect_recursive-In disk 1 3 7 0 1 (omega arith) refl
