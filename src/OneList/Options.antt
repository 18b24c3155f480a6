-- ===== src/OneList/Options.antt =====
-- `process_args` and `append_csv` of project 2a/lab2_list.c, with the bounds and the parameters that
-- ListBench has for project 2b.
use some_low_level_tasks.Prelude.{ℕ, List, [], ◌∷◌, ◌++◌, ◌==◌, if◌then◌else◌, take}
use some_low_level_tasks.Prelude.Int.{ℤ, pos, pos_part, ◌*ℤ◌}
use some_low_level_tasks.Text.{Bytes, codes, atoi, signed}
use some_low_level_tasks.Text.Csv.{csv_line}
use some_low_level_tasks.System.{
  Errno, Run, done, exited, ◌>>=◌, ◌>>◌, into, called, quot, Opt, first_char, invalid_arguments,
  Outputs,
}
use some_low_level_tasks.System.Messages.{open_error, format_error, write_error}
use some_low_level_tasks.SortedList.World.{World}
use some_low_level_tasks.SortedList.Options.{yield_by, sync_by, limit_iterations}
use some_low_level_tasks.ListBench.Options.{sync_usage, yield_usage}
use some_low_level_tasks.ListBench.Report.{c_string, as_format}

-- The variables that the options set; those of SortedList.c are in `lists`.
pub record Settings : Type 0 where
  pub num_threads : ℤ
  pub num_iterations : ℤ
  pub num_elements : ℤ
  pub str_sync : Bytes
  pub str_yield : Bytes
  pub lists : World

abbrev pub default_settings : World → Settings
default_settings lists = record {
  num_threads = pos 1;
  num_iterations = pos 1;
  num_elements = pos 0;
  str_sync = codes "none";
  str_yield = codes "none";
  lists = record lists { opt_yield = 0 };
}

unfoldable pub correct_usage : Bytes
correct_usage =
    codes
      "Correct usage:\r\n/lab2_add --threads=# --iterations=# --sync=m|s --yield=[idl]\r\n--thread     : number of threads used to add\r\n--iterations : number of iterations add will be run\r\n--sync       : synchronize with mutex or spinlock\r\n--yield      : whether to yield and increase failure rate\r\n"

abbrev pub set_lists : Bytes → ℕ × World → (World → Settings) → Run Settings
set_lists usage (code, lists) set = if code == 1 then exited 1 usage else done (set lists)

-- One round of the loop.
abbrev pub set_option : Opt → Settings → Run Settings
set_option o s =
    if o.code == b't'
    then done (record s { num_threads = atoi o.optarg })
    else if o.code == b'i'
    then done (record s { num_iterations = atoi o.optarg })
    else if o.code == b'y'
    then set_lists yield_usage (yield_by o.optarg s.lists)
        (λ lists. record s { str_yield = take 5 o.optarg; lists = lists })
    else if o.code == b's'
    then set_lists sync_usage (sync_by (first_char o.optarg) s.lists)
        (λ lists. record s { str_sync = take 5 o.optarg; lists = lists })
    else exited 1 correct_usage

abbrev pub set_options : List Opt → Settings → Run Settings
set_options [] s = done s
set_options (o ∷ opts) s = set_option o s >>= λ next. set_options opts next

abbrev pub end_options : List Bytes → Settings → Run Settings
end_options [] s =
    let total = s.num_threads *ℤ s.num_iterations in
    done (record s { num_elements = total; lists = limit_iterations (pos_part total) s.lists })
end_options words s = exited 1 (invalid_arguments words correct_usage)

unfoldable pub process_args : List Opt → List Bytes → World → Run Settings
process_args opts words lists =
    set_options opts (default_settings lists) >>= λ s. end_options words s

unfoldable pub compute_test_name : Settings → Run Bytes
compute_test_name s = do
  str_yield ← c_string s.str_yield
  str_sync ← c_string s.str_sync
  into 16 (codes "list-" ++ str_yield ++ codes "-" ++ str_sync)

abbrev pub num_operations : Settings → ℤ
num_operations s = pos 3 *ℤ s.num_threads *ℤ s.num_iterations

-- The fields of the line; the number of lists is 1.
abbrev pub fields : Bytes → Settings → (run_time average_time_per_op : ℤ) → List Bytes
fields test_name s run_time average_time_per_op =
    test_name
    ∷ signed s.num_threads
    ∷ signed s.num_iterations
    ∷ signed (pos 1)
    ∷ signed (num_operations s)
    ∷ signed run_time
    ∷ signed average_time_per_op
    ∷ []

-- The bytes written to the file and to stdout. `output` has 80 bytes.
unfoldable pub append_csv :
    (Errno → Bytes) → Outputs → Settings → (run_time : ℤ) → Run (Bytes × Bytes)
append_csv strerror out s run_time = do
  called (open_error strerror) out.opened tt
  test_name ← compute_test_name s
  average_time_per_op ← quot run_time (num_operations s)
  output ← into 80 (csv_line (fields test_name s run_time average_time_per_op))
  called (format_error strerror) out.printed tt
  called (write_error strerror) out.written tt
  shown ← as_format output
  done (output, shown)
