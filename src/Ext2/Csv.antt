-- ===== src/Ext2/Csv.antt =====
-- Project 3a/CsvWriter.c: the lines that are printed for an image. The results are the bytes written to
-- stdout. `date` is `strftime` with "%D %T" on what `gmtime` makes of a time.
pub mod Groups
pub mod Free
mod Tests
use Prim.Native.Nat.{bit_and}
use some_low_level_tasks.Prelude.{
  ℕ, zero, suc, ◌+◌, ◌*◌, ◌-◌, ◌/◌, ◌%◌, ◌^◌, ◌==◌, ltb, leb, List, [], ◌∷◌, ◌++◌, length, take,
  if◌then◌else◌,
}
use some_low_level_tasks.Prelude.Int.{ℤ, pos, negsuc, ltb_ℤ, ◌-ℤ◌}
use some_low_level_tasks.Text.{Bytes, codes, signed}
use some_low_level_tasks.Text.Csv.{csv_line}
use some_low_level_tasks.System.{Run, done, overflow, ◌>>=◌, into}
use some_low_level_tasks.Ext2.Image.{Disk, SuperBlock, GroupDesc, group, num_groups}
use some_low_level_tasks.Ext2.Inode.{Inode}
use some_low_level_tasks.Ext2.Dirent.{DirEntry}
use some_low_level_tasks.Ext2.Indirect.{IndirectEntry}
use some_low_level_tasks.Ext2.Scan.{ImageData}

-- 32 bits as an `int`.
abbrev pub as_int : ℕ → ℤ
as_int n = if ltb n (2 ^ 31) then pos n else negsuc (2 ^ 32 - n - 1)

-- `%d` of 32 bits.
abbrev pub int_field : ℕ → Bytes
int_field n = signed (as_int n)

-- A line behind which others are printed.
abbrev pub and_print : Run Bytes → Run Bytes → Run Bytes
and_print line rest = do out ← line; more ← rest; done (out ++ more)

-- A shift that leaves an `int` counts as `overflow` too.
unfoldable pub print_superblock : SuperBlock → Run Bytes
print_superblock s =
    if leb 21 s.s_log_block_size
    then overflow
    else into 64 (
        csv_line (
          codes "SUPERBLOCK"
          ∷ int_field s.s_blocks_count
          ∷ int_field s.s_inodes_count
          ∷ int_field (1024 * 2 ^ s.s_log_block_size)
          ∷ int_field s.s_inode_size
          ∷ int_field s.s_blocks_per_group
          ∷ int_field s.s_inodes_per_group
          ∷ int_field s.s_first_ino
          ∷ []))

-- What `current_blocks` or `current_inodes` is in each of `left` rounds, with `n` left over and `per` in a
-- group.
unfoldable pub group_sizes : (per : ℤ) → (left : ℕ) → (n : ℤ) → List ℤ
group_sizes per zero n = []
group_sizes per (suc left) n = (if ltb_ℤ n per then n else per) ∷ group_sizes per left (n -ℤ per)

-- The loop, over the sizes of its rounds.
unfoldable pub group_lines : (ℕ → GroupDesc) → (i : ℕ) → (blocks inodes : List ℤ) → Run Bytes
group_lines groups i (current_blocks ∷ blocks) (current_inodes ∷ inodes) =
    let g = groups i in
    and_print
      (into 64 (
        csv_line (
          codes "GROUP"
          ∷ signed (pos i)
          ∷ signed current_blocks
          ∷ signed current_inodes
          ∷ int_field g.bg_free_blocks_count
          ∷ int_field g.bg_free_inodes_count
          ∷ int_field g.bg_block_bitmap
          ∷ int_field g.bg_inode_bitmap
          ∷ int_field g.bg_inode_table
          ∷ [])))
      (group_lines groups (i + 1) blocks inodes)
group_lines groups i _ _ = done []

unfoldable pub print_group : Disk → SuperBlock → Run Bytes
print_group disk s =
    group_lines (group disk) 0
      (group_sizes (as_int s.s_blocks_per_group) (num_groups s) (as_int s.s_blocks_count))
      (group_sizes (as_int s.s_inodes_per_group) (num_groups s) (as_int s.s_inodes_count))

-- `left` numbers of a list, each on a line of its own; behind its end there is nothing to print.
unfoldable pub free_lines : (name : Bytes) → (left : ℕ) → List ℕ → Run Bytes
free_lines name zero numbers = done []
free_lines name (suc left) [] = overflow
free_lines name (suc left) (n ∷ numbers) =
    and_print (into 16 (csv_line (name ∷ int_field n ∷ []))) (free_lines name left numbers)

abbrev pub print_bfree : ImageData → Run Bytes
print_bfree img = free_lines (codes "BFREE") img.bfree.1 img.bfree.0

abbrev pub print_ifree : ImageData → Run Bytes
print_ifree img = free_lines (codes "IFREE") img.ifree.1 img.ifree.0

-- The digits of `%o` in front of `out`, with `fuel` rounds; `n` is enough, as each divides by eight.
unfoldable pub print_octal : (fuel n : ℕ) → Bytes → Bytes
print_octal zero n out = out
print_octal (suc fuel) n out =
    let more = print_octal fuel (n / 8) ((b'0' + n % 8) ∷ out) in if n == 0 then out else more

abbrev pub octal : ℕ → Bytes
octal n = if n == 0 then b'0' ∷ [] else print_octal n n []

abbrev pub format_symbol : (i_mode : ℕ) → ℕ
format_symbol i_mode =
    let format = bit_and i_mode 0xf000 in
    if format == 0x4000
    then b'd'
    else if format == 0x8000
    then b'f'
    else if format == 0xa000
    then b's'
    else b'?'

abbrev pub block_fields : (ℕ → ℕ) → (j left : ℕ) → List Bytes
block_fields block j zero = []
block_fields block j (suc left) = int_field (block j) ∷ block_fields block (j + 1) left

abbrev pub inode_fields : (date : ℕ → Bytes) → (number : ℕ) → Inode → List Bytes
inode_fields date number node =
    let symbol = format_symbol node.i_mode in
    codes "INODE"
    ∷ int_field number
    ∷ (symbol ∷ [])
    ∷ octal (node.i_mode % 4096)
    ∷ int_field node.i_uid
    ∷ int_field node.i_gid
    ∷ int_field node.i_links_count
    ∷ date node.i_ctime
    ∷ date node.i_mtime
    ∷ date node.i_atime
    ∷ int_field node.i_size
    ∷ int_field node.i_blocks
    ∷ block_fields node.i_block 0 (if symbol == b's' then 1 else 15)

unfoldable pub print_inode : (date : ℕ → Bytes) → (inode : ℕ) → List (ℕ × Inode) → Run Bytes
print_inode date inode [] = done []
print_inode date inode ((number, node) ∷ nodes) =
    let rest = print_inode date inode nodes in
    if number == inode
    then and_print (into 255 (csv_line (inode_fields date number node))) rest
    else rest

-- The bytes in front of the first NUL.
unfoldable pub until_nul : Bytes → Bytes
until_nul [] = []
until_nul (c ∷ text) = let rest = until_nul text in if c == 0 then [] else c ∷ rest

-- `file`, an array of 255 bytes, as a string: a name of 255 bytes leaves it without a terminator.
abbrev pub file_name : DirEntry → Run Bytes
file_name e = into 255 (until_nul (take e.name_len e.name))

abbrev pub dirent_line : (inode offset : ℕ) → DirEntry → Run Bytes
dirent_line inode offset e = do
  file ← file_name e
  into 300 (
      csv_line (
        codes "DIRENT"
        ∷ int_field inode
        ∷ int_field offset
        ∷ int_field e.inode
        ∷ int_field e.rec_len
        ∷ int_field e.name_len
        ∷ (b'\'' ∷ file ++ b'\'' ∷ [])
        ∷ []))

-- The loop, with `offset` so far.
unfoldable pub print_dirent : (inode offset : ℕ) → List (ℕ × DirEntry) → Run Bytes
print_dirent inode offset [] = done []
print_dirent inode offset ((parent, e) ∷ dirents) =
    let skipped = print_dirent inode offset dirents in
    let rest = print_dirent inode (offset + e.rec_len) dirents in
    if parent == inode then and_print (dirent_line inode offset e) rest else skipped

abbrev pub indirect_line : IndirectEntry → Run Bytes
indirect_line e = into 32 (
    csv_line (
      codes "INDIRECT"
      ∷ int_field e.inode
      ∷ int_field e.indirect_level
      ∷ int_field e.block_offset
      ∷ int_field e.indirect_block
      ∷ int_field e.referenced_block
      ∷ []))

unfoldable pub print_indirect : (inode : ℕ) → List IndirectEntry → Run Bytes
print_indirect inode [] = done []
print_indirect inode (e ∷ entries) =
    let rest = print_indirect inode entries in
    if e.inode == inode then and_print (indirect_line e) rest else rest

-- The loop over the inodes, with `left` rounds from `i` on.
unfoldable pub print_inodes : (date : ℕ → Bytes) → ImageData → (i left : ℕ) → Run Bytes
print_inodes date img i zero = done []
print_inodes date img i (suc left) = and_print (print_inode date i img.inodes) (
    and_print (print_dirent i 0 img.dirents)
      (and_print (print_indirect i img.indirects) (print_inodes date img (i + 1) left)))

unfoldable pub print_csv : (date : ℕ → Bytes) → Disk → ImageData → Run Bytes
print_csv date disk img = and_print (print_superblock img.sblock) (
    and_print (print_group disk img.sblock) (
      and_print (print_bfree img)
        (and_print (print_ifree img) (print_inodes date img 1 img.sblock.s_inodes_count))))
