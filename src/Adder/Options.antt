-- ===== src/Adder/Options.antt =====
-- `process_args` of project 2a/lab2_add.c. What `getopt_long` returns for the words of the command line
-- is a parameter: the options with their arguments, and the words that it leaves behind them. The values
-- are those in the range of `atoi` and `atol`.
use some_low_level_tasks.Prelude.{ℕ, Bool, true, false, List, [], ◌∷◌, ◌==◌, if◌then◌else◌}
use some_low_level_tasks.Prelude.Int.{ℤ, pos}
use some_low_level_tasks.Text.{Bytes, codes, atoi}
use some_low_level_tasks.System.{Run, done, exited, ◌>>=◌, Opt, first_char, invalid_arguments}
use some_low_level_tasks.Adder.Worker.{
  SyncOption, sync_mutex, sync_spin_lock, sync_compare_swap, unsynced,
}

-- The variables that the options set.
pub record Settings : Type 0 where
  pub num_threads : ℤ
  pub num_iterations : ℤ
  pub opt_yield : Bool
  pub sync_opt : SyncOption

abbrev pub default_settings : Settings
default_settings = record {
  num_threads = pos 1;
  num_iterations = pos 1;
  opt_yield = false;
  sync_opt = unsynced;
}

unfoldable pub correct_usage : Bytes
correct_usage =
    codes
      "Correct usage:\r\n/lab2_add --threads=# --iterations=# --sync=m|s|c --yield\r\n--thread     : number of threads used to add\r\n--iterations : number of iterations add will be run\r\n--sync       : synchronize with mutex, spinlock, or compare and swap\r\n--yield      : whether to yield and increase failure rate\r\n"

unfoldable pub sync_usage : Bytes
sync_usage =
    codes
      "Sync options are:\r\nm            : mutex\r\ns            : spin-lock\r\nc            : compare and swap\r\n"

-- `--sync`
abbrev pub set_sync : ℕ → Settings → Run Settings
set_sync c s =
    if c == b'm'
    then done (record s { sync_opt = sync_mutex })
    else if c == b's'
    then done (record s { sync_opt = sync_spin_lock })
    else if c == b'c'
    then done (record s { sync_opt = sync_compare_swap })
    else exited 1 sync_usage

-- One round of the loop.
abbrev pub set_option : Opt → Settings → Run Settings
set_option o s =
    if o.code == b't'
    then done (record s { num_threads = atoi o.optarg })
    else if o.code == b'i'
    then done (record s { num_iterations = atoi o.optarg })
    else if o.code == b'y'
    then done (record s { opt_yield = true })
    else if o.code == b's'
    then set_sync (first_char o.optarg) s
    else exited 1 correct_usage

abbrev pub set_options : List Opt → Settings → Run Settings
set_options [] s = done s
set_options (o ∷ opts) s = set_option o s >>= λ next. set_options opts next

unfoldable pub process_args : List Opt → List Bytes → Run Settings
process_args opts words = do s ← set_options opts default_settings; no_words words s
  where
    no_words : List Bytes → Settings → Run Settings
    no_words [] s = done s
    no_words words s = exited 1 (invalid_arguments words correct_usage)
