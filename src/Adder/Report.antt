-- ===== src/Adder/Report.antt =====
-- The line that `append_csv` of project 2a/lab2_add.c writes to lab2_add.csv and to the terminal.
use some_low_level_tasks.Prelude.{Bool, true, false, List, [], ◌∷◌}
use some_low_level_tasks.Prelude.Int.{ℤ, pos, ◌*ℤ◌}
use some_low_level_tasks.Text.{Bytes, codes, signed}
use some_low_level_tasks.Text.Csv.{csv_line}
use some_low_level_tasks.System.{Errno, ◌>>=◌, ◌>>◌, Run, into, called, quot, Outputs}
use some_low_level_tasks.System.Messages.{open_error, format_error, write_error}
use some_low_level_tasks.Adder.Worker.{
  SyncOption, sync_mutex, sync_spin_lock, sync_compare_swap, unsynced,
}
use some_low_level_tasks.Adder.Options.{Settings}

-- `str_result` has 16 bytes, and the longest of these names with its terminator takes 15.
abbrev pub compute_test_name : (opt_yield : Bool) → SyncOption → Bytes
compute_test_name false unsynced = codes "add-none"
compute_test_name false sync_mutex = codes "add-m"
compute_test_name false sync_spin_lock = codes "add-s"
compute_test_name false sync_compare_swap = codes "add-c"
compute_test_name true unsynced = codes "add-yield-none"
compute_test_name true sync_mutex = codes "add-yield-m"
compute_test_name true sync_spin_lock = codes "add-yield-s"
compute_test_name true sync_compare_swap = codes "add-yield-c"

abbrev pub num_operations : Settings → ℤ
num_operations s = pos 2 *ℤ s.num_threads *ℤ s.num_iterations

-- The fields of the line.
abbrev pub fields : Settings → (run_time average_time_per_op counter : ℤ) → List Bytes
fields s run_time average_time_per_op counter =
    compute_test_name s.opt_yield s.sync_opt
    ∷ signed s.num_threads
    ∷ signed s.num_iterations
    ∷ signed (num_operations s)
    ∷ signed run_time
    ∷ signed average_time_per_op
    ∷ signed counter
    ∷ []

-- The bytes written to the file and to stdout. `output` has 64 bytes. A product that leaves a `long` is
-- not in the model.
unfoldable pub append_csv :
    (Errno → Bytes) → Outputs → Settings → (run_time counter : ℤ) → Run Bytes
append_csv strerror out s run_time counter = do
  called (open_error strerror) out.opened tt
  average_time_per_op ← quot run_time (num_operations s)
  output ← into 64 (csv_line (fields s run_time average_time_per_op counter))
  called (format_error strerror) out.printed tt
  called (write_error strerror) out.written output
