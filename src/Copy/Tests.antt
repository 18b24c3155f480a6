-- ===== src/Copy/Tests.antt =====
-- Runs of the program of project 0/lab0.c.
use some_low_level_tasks.Prelude.{◌≡◌, refl, false, none, some, [], ◌∷◌, if◌then◌else◌}
use some_low_level_tasks.Text.{Bytes, codes}
use some_low_level_tasks.Copy.{Files, same_name, Calls, ended, killed, main}
use some_low_level_tasks.Copy.Laws.{input_output, main-copies}

abbrev files : Files
files name = if same_name name (codes "a") then some (codes "text") else none

abbrev calls : Calls
calls = record { strerror = λ e. []; open_error = λ name. none; creat_error = λ name. none }

main-copies_example :
    (after : Files) × (main calls (input_output (codes "a") (codes "b")) [] none files
      ≡ ended 0 [] after [])
    × (after (codes "b") ≡ some (codes "text"))
    × ((other : Bytes) → same_name other (codes "b") ≡ false → after other ≡ files other)
main-copies_example =
    main-copies calls (codes "a") (codes "b") (codes "text") none files refl refl refl refl

caught :
    main calls
      (record { code = b'c'; optarg = [] } ∷ record { code = b's'; optarg = [] } ∷ [])
      []
      none
      files
    ≡ ended 4 (codes "Segmentation fault generated has been caught by --catch.") files []
unfolding main
caught = refl

not_caught : main calls (record { code = b's'; optarg = [] } ∷ []) [] none files ≡ killed files
unfolding main
not_caught = refl
