-- ===== src/Ext2/Scan.antt =====
-- `scan_image` of project 3a/ImgReader.c: everything that is read from an image, in the order of the
-- source.
use Prim.Native.Nat.{bit_and}
use some_low_level_tasks.Prelude.{
  ℕ, zero, suc, ◌+◌, ◌==◌, Bool, true, false, Option, none, some, List, [], ◌∷◌, ◌++◌, map,
  if◌then◌else◌,
}
use some_low_level_tasks.Ext2.Image.{
  Disk, SuperBlock, is_positive, is_valid_image, read_superblock, num_groups,
}
use some_low_level_tasks.Ext2.Free.{read_free_list}
use some_low_level_tasks.Ext2.Inode.{Inode, read_inode}
use some_low_level_tasks.Ext2.Dirent.{DirEntry, read_block_dirents}
use some_low_level_tasks.Ext2.Indirect.{IndirectEntry, inode_indirects}
pub mod Laws
mod Tests

-- `(i_mode & 0xF000) == 0x4000`
abbrev pub is_directory : Inode → Bool
is_directory node = bit_and node.i_mode 0xf000 == 0x4000

-- A list that is appended to, in a run that may not end.
abbrev pub both {ℓ} : {A : Type ℓ} → Option (List A) → Option (List A) → Option (List A)
both (some xs) (some ys) = some (xs ++ ys)
both (some xs) none = none
both none o = none

abbrev pub with_parent : ℕ → Option (List DirEntry) → Option (List (ℕ × DirEntry))
with_parent parent none = none
with_parent parent (some es) = some (map (λ e. (parent, e)) es)

-- The loop over `j`: the first twelve blocks of a directory.
unfoldable pub directory_blocks :
    Disk → (fuel : ℕ) → ℕ × Inode → (left j : ℕ) → Option (List (ℕ × DirEntry))
directory_blocks disk fuel node zero j = some []
directory_blocks disk fuel node (suc left) j =
    both
      (if is_positive (node.1.i_block j)
        then with_parent node.0 (read_block_dirents disk fuel (node.1.i_block j))
        else some [])
      (directory_blocks disk fuel node left (j + 1))

-- `dirent_parent` and `dirent`, entry by entry.
unfoldable pub read_dirent : Disk → (fuel : ℕ) → List (ℕ × Inode) → Option (List (ℕ × DirEntry))
read_dirent disk fuel [] = some []
read_dirent disk fuel (node ∷ nodes) =
    both (if is_directory node.1 then directory_blocks disk fuel node 12 0 else some [])
      (read_dirent disk fuel nodes)

unfoldable pub read_indirect : Disk → List (ℕ × Inode) → List IndirectEntry
read_indirect disk [] = []
read_indirect disk (node ∷ nodes) =
    inode_indirects disk node.0 (node.1.i_block 12) (node.1.i_block 13) (node.1.i_block 14)
    ++ read_indirect disk nodes

-- `struct image`; the group descriptors are `group` of Ext2/Image.
pub record ImageData : Type 0 where
  pub sblock : SuperBlock
  pub bfree : List ℕ × ℕ
  pub ifree : List ℕ × ℕ
  pub inodes : List (ℕ × Inode)
  pub dirents : List (ℕ × DirEntry)
  pub indirects : List IndirectEntry

abbrev pub finished : Disk → SuperBlock → List (ℕ × Inode) → List (ℕ × DirEntry) → ImageData
finished disk s nodes dirents = record {
  sblock = s;
  bfree = read_free_list disk s true;
  ifree = read_free_list disk s false;
  inodes = nodes;
  dirents = dirents;
  indirects = read_indirect disk nodes;
}

abbrev finish :
    Disk → SuperBlock → List (ℕ × Inode) → Option (List (ℕ × DirEntry)) → Option ImageData
finish disk s nodes none = none
finish disk s nodes (some dirents) = some (finished disk s nodes dirents)

-- How `verify_valid_image` and `scan_image` end; the exit is with 2.
pub data ScanResult : Type 0 where
  scanned : ImageData → ScanResult
  exited : ℕ → ScanResult
  crashed : ScanResult
  still_running : ScanResult

abbrev outcome : Option ImageData → ScanResult
outcome none = still_running
outcome (some img) = scanned img

-- `read_group` divides by `s_blocks_per_group` before anything else is read.
unfoldable pub scan_image : Disk → (fuel : ℕ) → ScanResult
scan_image disk fuel =
    let s = read_superblock disk in
    let nodes = read_inode disk s in
    if s.s_blocks_per_group == 0
    then crashed
    else outcome (finish disk s nodes (read_dirent disk fuel nodes))

-- As `main` calls the two.
unfoldable pub read_image : Disk → (fuel : ℕ) → ScanResult
read_image disk fuel = if is_valid_image disk then scan_image disk fuel else exited 2
