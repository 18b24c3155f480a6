-- ===== src/Ext2/Free/Tests.antt =====
-- Runs of `read_free_list` of project 3a/ImgReader.c on a small image, and its theorems at it.
use some_low_level_tasks.Prelude.{◌≡◌, refl, ◌==◌, true, if◌then◌else◌, [], ◌∷◌}
use some_low_level_tasks.Ext2.Image.{Disk, read_superblock}
use some_low_level_tasks.Ext2.Free.{read_free_list, scan_groups, scan_bytes, scan_bits}

-- One group of 16 blocks, 4 of them free; its bitmap is block 3 and has the bytes 0xa5 and 0xff.
abbrev disk : Disk
disk p =
    if p == 1028
    then 16
    else if p == 1056
    then 16
    else if p == 2048
    then 3
    else if p == 2060
    then 4
    else if p == 3072
    then 0xa5
    else if p == 3073
    then 0xff
    else 0

free_run : read_free_list disk (read_superblock disk) true ≡ (2 ∷ 4 ∷ 5 ∷ 7 ∷ [], 4)
unfolding read_free_list scan_groups scan_bytes scan_bits
free_run = refl
