-- ===== src/Ext2/Scan/Laws.antt =====
-- The reader of project 3a ends where the directories of the image are sound.
use some_low_level_tasks.Prelude.{
  ℕ, zero, suc, ◌+◌, ◌<◌, ◌≡◌, ◌≢◌, refl, true, ◌≤◌, ◌++◌, map, if◌then◌else◌, inl, inr, Option,
  some, List, [], ◌∷◌, arith, Bool-cases, ne→==,
}
use some_low_level_tasks.Ext2.Image.{Disk, is_positive, is_valid_image, read_superblock}
use some_low_level_tasks.Ext2.Inode.{Inode, read_inode}
use some_low_level_tasks.Ext2.Inode.Laws.{Listed}
use some_low_level_tasks.Ext2.Dirent.{DirEntry, read_block_dirents}
use some_low_level_tasks.Ext2.Dirent.Laws.{HasLengths, read_block_dirents_ends}
use some_low_level_tasks.Ext2.Scan.{
  ImageData, is_directory, both, with_parent, directory_blocks, read_dirent, scan_image, read_image,
  scanned, finished,
}

-- The entries have lengths in each block of a directory that is read.
abbrev pub IsSoundDirectory : Disk → Inode → Type 0
IsSoundDirectory disk node =
    (j : ℕ) → j < 12 → is_positive (node.i_block j) ≡ true → HasLengths disk (node.i_block j)

abbrev Ends : {A : Type 0} → Option (List A) → Type 0
Ends {A} o = (xs : List A) × (o ≡ some xs)

both-Ends : {A : Type 0} (o p : Option (List A)) → Ends o → Ends p → Ends (both o p)
both-Ends o p (xs, e) (ys, f) = (xs ++ ys, rw (e, f) refl)

parent-Ends : (parent : ℕ) (o : Option (List DirEntry)) → Ends o → Ends (with_parent parent o)
parent-Ends parent o (es, e) = (map (λ d. (parent, d)) es, rw e refl)

block-Ends :
    (disk : Disk) (node : ℕ × Inode) (j : ℕ)
    → (is_positive (node.1.i_block j) ≡ true → HasLengths disk (node.1.i_block j))
    → Ends (
        if is_positive (node.1.i_block j)
        then with_parent node.0 (read_block_dirents disk 1025 (node.1.i_block j))
        else some [])
block-Ends disk node j sound = elim (Bool-cases (is_positive (node.1.i_block j))) [
  | inl used ↦ rw used (
      parent-Ends node.0 (read_block_dirents disk 1025 (node.1.i_block j))
        (read_block_dirents_ends disk (node.1.i_block j) (sound used)))
  | inr unused ↦ rw unused ([], refl)
]

directory_blocks-Ends :
    (disk : Disk) (node : ℕ × Inode)
    → IsSoundDirectory disk node.1
    → (left j : ℕ) → j + left ≤ 12
    → Ends (directory_blocks disk 1025 node left j)
unfolding directory_blocks
directory_blocks-Ends disk node sound zero j h = ([], refl)
directory_blocks-Ends disk node sound (suc left) j h =
    both-Ends _ _ (block-Ends disk node j (sound j (omega arith)))
      (directory_blocks-Ends disk node sound left (j + 1) (omega arith))

directory-Ends :
    (disk : Disk) (node : ℕ × Inode)
    → (is_directory node.1 ≡ true → IsSoundDirectory disk node.1)
    → Ends (if is_directory node.1 then directory_blocks disk 1025 node 12 0 else some [])
directory-Ends disk node sound = elim (Bool-cases (is_directory node.1)) [
  | inl directory ↦
      rw directory (directory_blocks-Ends disk node (sound directory) 12 0 (omega arith))
  | inr other ↦ rw other ([], refl)
]

read_dirent-Ends :
    (disk : Disk) (nodes : List (ℕ × Inode))
    → ((node : ℕ × Inode)
        → Listed node nodes
        → is_directory node.1 ≡ true
        → IsSoundDirectory disk node.1)
    → Ends (read_dirent disk 1025 nodes)
unfolding read_dirent
read_dirent-Ends disk [] sound = ([], refl)
read_dirent-Ends disk (node ∷ nodes) sound =
    both-Ends _ _ (directory-Ends disk node (sound node (inl refl)))
      (read_dirent-Ends disk nodes (λ n l. sound n (inr l)))

-- An image with the right signature and a number of blocks per group that is not 0 is read to its end, with 1025 rounds for each block of a directory,
-- where each entry met in the blocks of the directories in use has a length.
pub read_image_ends :
    (disk : Disk)
    → is_valid_image disk ≡ true
    → (read_superblock disk).s_blocks_per_group ≢ 0
    → ((node : ℕ × Inode)
        → Listed node (read_inode disk (read_superblock disk))
        → is_directory node.1 ≡ true
        → IsSoundDirectory disk node.1)
    → (img : ImageData) × (read_image disk 1025 ≡ scanned img)
unfolding read_image scan_image
read_image_ends disk valid some_blocks sound =
    let (dirents, e) = read_dirent-Ends disk (read_inode disk (read_superblock disk)) sound in
    (
      finished disk (read_superblock disk) (read_inode disk (read_superblock disk)) dirents,
      rw (valid, ne→== _ _ some_blocks, e) refl,
    )
