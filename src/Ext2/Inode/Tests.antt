-- ===== src/Ext2/Inode/Tests.antt =====
-- The theorems on `read_inode` of project 3a/ImgReader.c at a small image.
use some_low_level_tasks.Prelude.{◌==◌, if◌then◌else◌, refl, arith}
use some_low_level_tasks.Ext2.Image.{Disk, SuperBlock}
use some_low_level_tasks.Ext2.Inode.{inode_at}
use some_low_level_tasks.Ext2.Inode.Laws.{IsUsedInode, read_inode-Listed, read_inode-IsUsedInode}

-- The inode table is block 5; its second inode has a mode and a link.
abbrev disk : Disk
disk p = if p == 2056 then 5 else if p == 5249 then 0x81 else if p == 5274 then 1 else 0

abbrev super : SuperBlock
super = record {
  s_inodes_count = 8;
  s_blocks_count = 16;
  s_log_block_size = 0;
  s_blocks_per_group = 16;
  s_inodes_per_group = 8;
  s_first_ino = 11;
  s_inode_size = 128;
}

read_inode-IsUsedInode_example : IsUsedInode disk super 1 0 (2, inode_at disk 5248)
read_inode-IsUsedInode_example =
    read_inode-IsUsedInode disk super (2, inode_at disk 5248)
      (read_inode-Listed disk super 0 1 (omega arith) (omega arith) refl)
