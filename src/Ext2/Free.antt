-- ===== src/Ext2/Free.antt =====
-- `read_free_list` of project 3a/ImgReader.c: the numbers of the free blocks, or of the free inodes. The
-- counts of the superblock are below 2^31 here, where the source puts them into an `int`.
use Prim.Native.Nat.{bit_and}
use some_low_level_tasks.Prelude.{
  ℕ, zero, suc, ◌+◌, ◌*◌, ◌==◌, Bool, true, false, List, [], ◌∷◌, ◌++◌, leb, if◌then◌else◌,
}
use some_low_level_tasks.Ext2.Image.{Disk, block_size, SuperBlock, GroupDesc, group, num_groups}
pub mod Spec
pub mod Bitmap
mod Tests

-- Where a loop ends with `free_list` and `free_count`: at its bound, or at the `return` inside.
pub data Scan : Type 0 where
  go_on returned : List ℕ → ℕ → Scan

abbrev pub continue : Scan → (List ℕ → ℕ → Scan) → Scan
continue (go_on free_list free_count) f = f free_list free_count
continue (returned free_list free_count) f = returned free_list free_count

-- The test behind each bit.
abbrev pub test_count : ℕ → List ℕ → ℕ → Scan
test_count frees free_list free_count =
    if leb frees free_count then returned free_list free_count else go_on free_list free_count

-- The loop over `k`, with `left` rounds to go; `first` is `i*per_group + j*8`.
unfoldable pub scan_bits : (byte frees first left k mask : ℕ) → List ℕ → ℕ → Scan
scan_bits byte frees first zero k mask free_list free_count = go_on free_list free_count
scan_bits byte frees first (suc left) k mask free_list free_count =
    continue
      (if bit_and byte mask == 0
        then test_count frees (free_list ++ (first + k + 1) ∷ []) (free_count + 1)
        else test_count frees free_list free_count)
      (scan_bits byte frees first left (k + 1) (mask * 2))

-- The loop over `j`; `first` is `i*per_group`.
unfoldable pub scan_bytes : Disk → (bitmap frees first left j : ℕ) → List ℕ → ℕ → Scan
scan_bytes disk bitmap frees first zero j free_list free_count = go_on free_list free_count
scan_bytes disk bitmap frees first (suc left) j free_list free_count =
    continue
      (scan_bits (disk (bitmap * block_size + j)) frees (first + j * 8) 8 0 1 free_list free_count)
      (scan_bytes disk bitmap frees first left (j + 1))

abbrev pub per_group : SuperBlock → Bool → ℕ
per_group s true = s.s_blocks_per_group
per_group s false = s.s_inodes_per_group

abbrev pub frees : GroupDesc → Bool → ℕ
frees g true = g.bg_free_blocks_count
frees g false = g.bg_free_inodes_count

abbrev pub bitmap : GroupDesc → Bool → ℕ
bitmap g true = g.bg_block_bitmap
bitmap g false = g.bg_inode_bitmap

-- The loop over `i`.
unfoldable pub scan_groups : Disk → SuperBlock → Bool → (left i : ℕ) → List ℕ → ℕ → Scan
scan_groups disk s is_bfree zero i free_list free_count = go_on free_list free_count
scan_groups disk s is_bfree (suc left) i free_list free_count =
    continue
      (scan_bytes disk (bitmap (group disk i) is_bfree) (frees (group disk i) is_bfree)
        (i * per_group s is_bfree) (per_group s is_bfree) 0 free_list free_count)
      (scan_groups disk s is_bfree left (i + 1))

abbrev pub result : Scan → List ℕ × ℕ
result (go_on free_list free_count) = (free_list, free_count)
result (returned free_list free_count) = (free_list, free_count)

-- The list and its size.
unfoldable pub read_free_list : Disk → SuperBlock → Bool → List ℕ × ℕ
read_free_list disk s is_bfree = result (scan_groups disk s is_bfree (num_groups s) 0 [] 0)
