-- ===== src/Ext2/Inode.antt =====
-- `read_inode` of project 3a/ImgReader.c: the inodes in use, with the numbers it gives them.
use some_low_level_tasks.Prelude.{
  ℕ, zero, suc, ◌+◌, ◌*◌, ltb, Bool, ◌&&◌, List, [], ◌∷◌, ◌++◌, if◌then◌else◌,
}
use some_low_level_tasks.Ext2.Image.{
  Disk, block_size, inode_size, int16, int32, SuperBlock, group, num_groups,
}
pub mod Laws
mod Tests

-- The fields of `struct ext2_inode` that are used.
pub record Inode : Type 0 where
  pub i_mode : ℕ
  pub i_uid : ℕ
  pub i_size : ℕ
  pub i_atime : ℕ
  pub i_ctime : ℕ
  pub i_mtime : ℕ
  pub i_gid : ℕ
  pub i_links_count : ℕ
  pub i_blocks : ℕ
  pub i_block : ℕ → ℕ

abbrev pub inode_at : Disk → ℕ → Inode
inode_at disk p = record {
  i_mode = int16 disk p;
  i_uid = int16 disk (p + 2);
  i_size = int32 disk (p + 4);
  i_atime = int32 disk (p + 8);
  i_ctime = int32 disk (p + 12);
  i_mtime = int32 disk (p + 16);
  i_gid = int16 disk (p + 24);
  i_links_count = int16 disk (p + 26);
  i_blocks = int32 disk (p + 28);
  i_block = λ j. int32 disk (p + 40 + j * 4);
}

-- The position of an inode of a group.
abbrev pub position : Disk → (i j : ℕ) → ℕ
position disk i j = (group disk i).bg_inode_table * block_size + j * inode_size

-- `mode > 0 && link_count > 0`, of an inode below `inode_count`
abbrev pub is_used : Disk → SuperBlock → (i j : ℕ) → Bool
is_used disk s i j =
    ltb (i * s.s_inodes_per_group + j) s.s_inodes_count
    && (ltb 0 (inode_at disk (position disk i j)).i_mode
        && ltb 0 (inode_at disk (position disk i j)).i_links_count)

-- The loop over `j`: `inode_num` and `inode`, entry by entry.
unfoldable pub scan_table : Disk → SuperBlock → (i left j : ℕ) → List (ℕ × Inode)
scan_table disk s i zero j = []
scan_table disk s i (suc left) j =
    (if is_used disk s i j then (j + 1, inode_at disk (position disk i j)) ∷ [] else [])
    ++ scan_table disk s i left (j + 1)

-- The loop over `i`.
unfoldable pub scan_tables : Disk → SuperBlock → (left i : ℕ) → List (ℕ × Inode)
scan_tables disk s zero i = []
scan_tables disk s (suc left) i =
    scan_table disk s i s.s_inodes_per_group 0 ++ scan_tables disk s left (i + 1)

unfoldable pub read_inode : Disk → SuperBlock → List (ℕ × Inode)
read_inode disk s = scan_tables disk s (num_groups s) 0
