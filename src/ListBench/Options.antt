-- ===== src/ListBench/Options.antt =====
-- `process_args` of project 2b/lab2_list.c, with `yield_by`, `sync_by` and `limit_iterations` of
-- SortedList.c. What `getopt_long` returns for the command line is a parameter. The values are those in
-- the range of `atoi` and `atol`, and a product that leaves a `long` is not in the model.
use some_low_level_tasks.Prelude.{ℕ, List, [], ◌∷◌, ◌==◌, if◌then◌else◌, take}
use some_low_level_tasks.Prelude.Int.{ℤ, pos, pos_part, ◌*ℤ◌}
use some_low_level_tasks.Text.{Bytes, codes, atoi}
use some_low_level_tasks.System.{Run, done, exited, ◌>>=◌, Opt, first_char, invalid_arguments}
use some_low_level_tasks.SortedList.World.{World}
use some_low_level_tasks.SortedList.Options.{yield_by, sync_by, limit_iterations}

-- The variables that the options set; those of SortedList.c are in `lists`. `str_sync` and `str_yield`
-- are the bytes in front of the terminator: five where `strncpy` has written none.
pub record Settings : Type 0 where
  pub num_threads : ℤ
  pub num_iterations : ℤ
  pub num_lists : ℤ
  pub num_elements : ℤ
  pub str_sync : Bytes
  pub str_yield : Bytes
  pub lists : World

abbrev pub default_settings : World → Settings
default_settings lists = record {
  num_threads = pos 1;
  num_iterations = pos 1;
  num_lists = pos 1;
  num_elements = pos 0;
  str_sync = codes "none";
  str_yield = codes "none";
  lists = record lists { opt_yield = 0 };
}

unfoldable pub correct_usage : Bytes
correct_usage =
    codes
      "Correct usage:\r\n/lab2_add --threads=# --iterations=# --sync=m|s --yield=[idl]\r\n--thread     : number of threads used to add\r\n--iterations : number of iterations add will be run\r\n--sync       : synchronize with mutex or spinlock\r\n--yield      : whether to yield and increase failure rate\r\n--lists      : number of sub lists\r\n"

unfoldable pub sync_usage : Bytes
sync_usage = codes "Sync options are:\r\nm            : mutex\r\ns            : spin-lock\r\n"

unfoldable pub yield_usage : Bytes
yield_usage =
    codes
      "Yield options are: [idl]\r\ni            : insert\r\nd            : delete\r\nl            : lookup\r\n"

-- The result of `yield_by` or `sync_by`, and what follows a 0.
abbrev pub set_lists : Bytes → ℕ × World → (World → Settings) → Run Settings
set_lists usage (code, lists) set = if code == 1 then exited 1 usage else done (set lists)

-- One round of the loop.
abbrev pub set_option : Opt → Settings → Run Settings
set_option o s =
    if o.code == b't'
    then done (record s { num_threads = atoi o.optarg })
    else if o.code == b'i'
    then done (record s { num_iterations = atoi o.optarg })
    else if o.code == b'y'
    then set_lists yield_usage (yield_by o.optarg s.lists)
        (λ lists. record s { str_yield = take 5 o.optarg; lists = lists })
    else if o.code == b's'
    then set_lists sync_usage (sync_by (first_char o.optarg) s.lists)
        (λ lists. record s { str_sync = take 5 o.optarg; lists = lists })
    else if o.code == b'l'
    then done (record s { num_lists = atoi o.optarg })
    else exited 1 correct_usage

abbrev pub set_options : List Opt → Settings → Run Settings
set_options [] s = done s
set_options (o ∷ opts) s = set_option o s >>= λ next. set_options opts next

-- The words that are left, and the number of elements. A negative one leaves the loops of SortedList.c
-- no round, as 0 does.
abbrev pub end_options : List Bytes → Settings → Run Settings
end_options [] s =
    let total = s.num_threads *ℤ s.num_iterations in
    done (record s { num_elements = total; lists = limit_iterations (pos_part total) s.lists })
end_options words s = exited 1 (invalid_arguments words correct_usage)

unfoldable pub process_args : List Opt → List Bytes → World → Run Settings
process_args opts words lists =
    set_options opts (default_settings lists) >>= λ s. end_options words s
