-- ===== src/Ext2/Indirect.antt =====
-- `indirect_recursive` of project 3a/ImgReader.c: the blocks that an indirect block refers to. The
-- entries that the source appends to `img->indirect` are the result, in their order.
use some_low_level_tasks.Prelude.{ℕ, zero, suc, ◌+◌, ◌*◌, ◌==◌, List, [], ◌∷◌, ◌++◌, if◌then◌else◌}
use some_low_level_tasks.Ext2.Image.{Disk, block_size, int32, is_positive}
pub mod Laws
mod Tests

-- `struct ext2_indirect`
pub record IndirectEntry : Type 0 where
  pub inode : ℕ
  pub indirect_level : ℕ
  pub block_offset : ℕ
  pub indirect_block : ℕ
  pub referenced_block : ℕ

-- The logical offset that the loop starts from.
abbrev pub first_logical : (level logical : ℕ) → ℕ
first_logical level logical =
    if logical == 0
    then (if level == 3 then 256 * 256 + 256 else if level == 2 then 256 else 0) + 12
    else logical

-- The loop over the block `root`, with `left` rounds to go; `below` is the call for a block found.
unfoldable pub scan_block :
    Disk
    → (below : ℕ → ℕ → List IndirectEntry) → (root level inode left offset logical : ℕ)
    → List IndirectEntry
scan_block disk below root level inode zero offset logical = []
scan_block disk below root level inode (suc left) offset logical =
    let block = int32 disk (root * block_size + offset) in
    (if is_positive block
      then record {
        inode = inode;
        indirect_level = level;
        block_offset = logical;
        indirect_block = root;
        referenced_block = block;
      }
        ∷ below block logical
      else [])
    ++ scan_block disk below root level inode left (offset + 4) (logical + 1)

abbrev pub nothing : ℕ → ℕ → List IndirectEntry
nothing block logical = []

unfoldable pub indirect_recursive : Disk → (level block inode logical : ℕ) → List IndirectEntry
indirect_recursive disk zero block inode logical =
    scan_block disk nothing block 0 inode 256 0 (first_logical 0 logical)
indirect_recursive disk (suc zero) block inode logical =
    scan_block disk nothing block 1 inode 256 0 (first_logical 1 logical)
indirect_recursive disk (suc (suc level)) block inode logical =
    scan_block disk (λ found at. indirect_recursive disk (suc level) found inode at) block
      (suc (suc level)) inode 256 0 (first_logical (suc (suc level)) logical)

-- What `read_indirect` appends for one inode: `i_block[12]` to `i_block[14]`, whatever they hold.
abbrev pub inode_indirects : Disk → (inode block12 block13 block14 : ℕ) → List IndirectEntry
inode_indirects disk inode block12 block13 block14 =
    indirect_recursive disk 1 block12 inode 0
    ++ indirect_recursive disk 2 block13 inode 0
    ++ indirect_recursive disk 3 block14 inode 0
