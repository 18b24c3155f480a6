-- ===== src/Ext2/Scan/Tests.antt =====
-- The reader of project 3a at an image with one directory.
use mathlib.Core.Path.{subst}
use some_low_level_tasks.Prelude.{
  ℕ, zero, suc, ◌≤◌, ◌≡◌, ◌==◌, ◌⊎◌, inl, inr, true, sym, if◌then◌else◌, refl, arith,
}
use some_low_level_tasks.Ext2.Image.{Disk, read_superblock}
use some_low_level_tasks.Ext2.Inode.{Inode, inode_at, read_inode, scan_tables, scan_table}
use some_low_level_tasks.Ext2.Inode.Laws.{Listed}
use some_low_level_tasks.Ext2.Dirent.Laws.{Visited, first, next, HasLengths}
use some_low_level_tasks.Ext2.Scan.{
  ImageData, is_directory, read_image, scan_image, scanned, crashed,
}
use some_low_level_tasks.Ext2.Scan.Laws.{IsSoundDirectory, read_image_ends}

-- The signature, one group of one block, and one inode in block 5: a directory whose first block, the
-- ninth, has one entry of length 1024.
abbrev disk : Disk
disk p =
    if p == 1080
    then 0x53
    else if p == 1081
    then 0xef
    else if p == 1024
    then 1
    else if p == 1028
    then 1
    else if p == 1056
    then 1
    else if p == 1064
    then 1
    else if p == 2056
    then 5
    else if p == 5121
    then 0x40
    else if p == 5146
    then 1
    else if p == 5160
    then 9
    else if p == 9216
    then 1
    else if p == 9221
    then 4
    else 0

visited_nine : {offset : ℕ} → Visited disk 9 offset → (offset ≡ 0) ⊎ (1024 ≤ offset)
visited_nine first = inl refl
visited_nine (next {offset} v) =
    inr
      (elim (visited_nine v) [ inl at_start ↦ rw at_start (omega arith) | inr over ↦ omega arith ])

lengths : HasLengths disk 9
lengths offset v l n = elim (visited_nine v) [
  | inl at_start ↦ rw at_start (omega arith)
  | inr over ↦ absurd (omega arith)
]

sound : IsSoundDirectory disk (inode_at disk 5120)
sound zero l used = lengths
sound (suc j) l used = absurd (ground arith)

every_sound :
    (node : ℕ × Inode)
    → Listed node (read_inode disk (read_superblock disk))
    → is_directory node.1 ≡ true
    → IsSoundDirectory disk node.1
unfolding read_inode scan_tables scan_table
every_sound node (inl same) directory = subst (λ n. IsSoundDirectory disk n.1) (sym same) sound
every_sound node (inr other) directory = absurd other

read_image_ends_example : (img : ImageData) × (read_image disk 1025 ≡ scanned img)
read_image_ends_example = read_image_ends disk refl (omega arith) every_sound

-- Without blocks per group the division ends the program.
no_blocks_per_group : read_image (λ p. if p == 1056 then 0 else disk p) 1025 ≡ crashed
unfolding read_image scan_image
no_blocks_per_group = refl
