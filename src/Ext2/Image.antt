-- ===== src/Ext2/Image.antt =====
-- The image that project 3a/ImgReader.c reads: bytes by position, and the structures of ext2_fs.h read
-- from it in the byte order of the machine, the least significant byte first.
-- A byte past the end is 0, as `img_read` clears its buffer; a failed `pread` is not modelled. Positions
-- are natural numbers, so the image is smaller than the 2^31 bytes that `block_offset` can count.
use some_low_level_tasks.Prelude.{
  ℕ, ◌+◌, ◌*◌, ◌-◌, ◌/◌, ◌%◌, ◌==◌, ltb, ◌^◌, ◌&&◌, Bool, if◌then◌else◌,
}

abbrev pub Disk : Type 0
Disk = ℕ → ℕ

abbrev pub block_size : ℕ
block_size = 1024

abbrev pub group_desc_size : ℕ
group_desc_size = 32

abbrev pub inode_size : ℕ
inode_size = 128

abbrev pub int16 : Disk → ℕ → ℕ
int16 disk p = disk p + 256 * disk (p + 1)

abbrev pub int32 : Disk → ℕ → ℕ
int32 disk p = int16 disk p + 65536 * int16 disk (p + 2)

-- The fields of `struct ext2_super_block` that are used.
pub record SuperBlock : Type 0 where
  pub s_inodes_count : ℕ
  pub s_blocks_count : ℕ
  pub s_log_block_size : ℕ
  pub s_blocks_per_group : ℕ
  pub s_inodes_per_group : ℕ
  pub s_first_ino : ℕ
  pub s_inode_size : ℕ

-- The fields of `struct ext2_group_desc` that are used.
pub record GroupDesc : Type 0 where
  pub bg_block_bitmap : ℕ
  pub bg_inode_bitmap : ℕ
  pub bg_inode_table : ℕ
  pub bg_free_blocks_count : ℕ
  pub bg_free_inodes_count : ℕ

abbrev pub is_valid_image : Disk → Bool
is_valid_image disk = int16 disk (block_size + 56) == 0xef53

abbrev pub read_superblock : Disk → SuperBlock
read_superblock disk = record {
  s_inodes_count = int32 disk block_size;
  s_blocks_count = int32 disk (block_size + 4);
  s_log_block_size = int32 disk (block_size + 24);
  s_blocks_per_group = int32 disk (block_size + 32);
  s_inodes_per_group = int32 disk (block_size + 40);
  s_first_ino = int32 disk (block_size + 84);
  s_inode_size = int16 disk (block_size + 88);
}

-- `1 + (s_blocks_count - 1) / s_blocks_per_group` in 32 bits without a sign, as an `int`. Where that is
-- negative the loops up to it do nothing, as at 0. The division is of a number that is not 0.
abbrev pub num_groups : SuperBlock → ℕ
num_groups s =
    let last_block = (s.s_blocks_count + (2 ^ 32 - 1)) % 2 ^ 32 in
    let groups = (1 + last_block / s.s_blocks_per_group) % 2 ^ 32 in
    if ltb groups (2 ^ 31) then groups else 0

-- `img->group[i]`
abbrev pub group : Disk → ℕ → GroupDesc
group disk i =
    let offset = 2 * block_size + i * group_desc_size in
    record {
      bg_block_bitmap = int32 disk offset;
      bg_inode_bitmap = int32 disk (offset + 4);
      bg_inode_table = int32 disk (offset + 8);
      bg_free_blocks_count = int16 disk (offset + 12);
      bg_free_inodes_count = int16 disk (offset + 14);
    }

-- `block > 0` of an `int` that was read as 32 bits
abbrev pub is_positive : ℕ → Bool
is_positive block = ltb 0 block && ltb block (2 ^ 31)
