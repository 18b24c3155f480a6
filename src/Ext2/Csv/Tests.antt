-- ===== src/Ext2/Csv/Tests.antt =====
-- Lines that project 3a/CsvWriter.c prints.
use some_low_level_tasks.Prelude.{◌≡◌, refl, [], ◌∷◌, map, arith}
use some_low_level_tasks.Prelude.Int.{pos}
use some_low_level_tasks.Text.{Bytes, codes, decimal, print_digits}
use some_low_level_tasks.Text.Lines.{read_lines}
use some_low_level_tasks.System.{done, overflow}
use some_low_level_tasks.Ext2.Image.{SuperBlock, num_groups}
use some_low_level_tasks.Ext2.Dirent.{DirEntry}
use some_low_level_tasks.Ext2.Csv.{
  as_int, group_sizes, free_lines, print_dirent, print_indirect, until_nul,
}
use some_low_level_tasks.Ext2.Csv.Groups.{total, total-blocks}
use some_low_level_tasks.Ext2.Csv.Free.{read_lines-free_lines}

abbrev sblock : SuperBlock
sblock = record {
  s_inodes_count = 16;
  s_blocks_count = 100;
  s_log_block_size = 0;
  s_blocks_per_group = 40;
  s_inodes_per_group = 8;
  s_first_ino = 11;
  s_inode_size = 128;
}

-- Groups of 40, 40 and 20 blocks.
total-blocks_example : total (group_sizes (as_int 40) (num_groups sblock) (as_int 100)) ≡ pos 100
total-blocks_example = total-blocks sblock (omega arith) (omega arith) (omega arith) (omega arith)

read_lines-free_lines_example :
    (out : Bytes) × (free_lines (codes "BFREE") 2 (27 ∷ 1024 ∷ []) ≡ done out)
    × (read_lines [] [] out ≡ map (λ n. codes "BFREE" ∷ decimal n ∷ []) (27 ∷ 1024 ∷ []))
read_lines-free_lines_example =
    read_lines-free_lines (codes "BFREE") (27 ∷ 1024 ∷ []) (omega arith) (omega arith) (omega arith)

abbrev entry : Bytes → DirEntry
entry name = record { inode = 12; rec_len = 20; name_len = 4; file_type = 1; name = name }

-- The second entry of directory 2 stands at 20.
dirent_lines :
    print_dirent 2 0
      ((2, entry (codes "abcd")) ∷ (5, entry (codes "xxxx")) ∷ (2, entry (codes "efgh")) ∷ [])
    ≡ done (codes "DIRENT,2,0,12,20,4,'abcd'\nDIRENT,2,20,12,20,4,'efgh'\n")
unfolding print_dirent until_nul decimal print_digits
dirent_lines = refl

-- An entry of a large file on an image of 13 megabytes: the line has 32 bytes, and `buf` no place for the
-- terminator.
indirect_overflow :
    print_indirect 1234 (
      record {
        inode = 1234;
        indirect_level = 2;
        block_offset = 268;
        indirect_block = 12345;
        referenced_block = 12346;
      }
      ∷ [])
    ≡ overflow
unfolding print_indirect decimal print_digits
indirect_overflow = refl
