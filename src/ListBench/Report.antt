-- ===== src/ListBench/Report.antt =====
-- The line that `append_csv` of project 2b/lab2_list.c writes to lab2b_list.csv and to the terminal.
use some_low_level_tasks.Prelude.{List, [], ◌∷◌, ◌++◌, ◌==◌, leb, length, if◌then◌else◌}
use some_low_level_tasks.Prelude.Int.{ℤ, pos, ◌*ℤ◌}
use some_low_level_tasks.Text.{Bytes, codes, signed}
use some_low_level_tasks.Text.Csv.{csv_line}
use some_low_level_tasks.System.{
  Errno, Run, done, overflow, ◌>>=◌, ◌>>◌, into, called, quot, Outputs,
}
use some_low_level_tasks.System.Messages.{open_error, format_error, write_error}
use some_low_level_tasks.ListBench.Options.{Settings}

-- An array of five bytes as a string: without a terminator the read goes on behind the array.
abbrev pub c_string : Bytes → Run Bytes
c_string text = if leb 5 (length text) then overflow else done text

-- `str_result` has 16 bytes.
unfoldable pub compute_test_name : Settings → Run Bytes
compute_test_name s = do
  str_yield ← c_string s.str_yield
  str_sync ← c_string s.str_sync
  into 16 (codes "list-" ++ str_yield ++ codes "-" ++ str_sync)

abbrev pub num_operations : Settings → ℤ
num_operations s = pos 3 *ℤ s.num_threads *ℤ s.num_iterations

-- The fields of the line.
abbrev pub fields : Bytes → Settings → (run_time average_time_per_op wait_time : ℤ) → List Bytes
fields test_name s run_time average_time_per_op wait_time =
    test_name
    ∷ signed s.num_threads
    ∷ signed s.num_iterations
    ∷ signed s.num_lists
    ∷ signed (num_operations s)
    ∷ signed run_time
    ∷ signed average_time_per_op
    ∷ signed wait_time
    ∷ []

-- `fprintf(stdout, output)`: the line is the format, so `%%` prints one `%`, and any other `%` reads an
-- argument that was not passed.
unfoldable pub as_format : Bytes → Run Bytes
as_format [] = done []
as_format (c ∷ []) = if c == b'%' then overflow else done (c ∷ [])
as_format (c ∷ d ∷ text) =
    let rest = as_format text in
    let next = as_format (d ∷ text) in
    if c == b'%'
    then (if d == b'%' then (rest >>= λ out. done (b'%' ∷ out)) else overflow)
    else (next >>= λ out. done (c ∷ out))

-- The bytes written to the file and to stdout. `output` has 80 bytes.
unfoldable pub append_csv :
    (Errno → Bytes) → Outputs → Settings → (run_time wait_for_time : ℤ) → Run (Bytes × Bytes)
append_csv strerror out s run_time wait_for_time = do
  called (open_error strerror) out.opened tt
  test_name ← compute_test_name s
  average_time_per_op ← quot run_time (num_operations s)
  wait_time ← quot wait_for_time (num_operations s)
  output ← into 80 (csv_line (fields test_name s run_time average_time_per_op wait_time))
  called (format_error strerror) out.printed tt
  called (write_error strerror) out.written tt
  shown ← as_format output
  done (output, shown)
