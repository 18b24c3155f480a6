-- ===== src/Copy/Laws.antt =====
-- What project 0/lab0.c copies.
use some_low_level_tasks.Prelude.{◌≡◌, refl, true, false, Option, none, some, List, [], ◌∷◌, arith}
use some_low_level_tasks.Text.{Bytes}
use some_low_level_tasks.System.{Opt}
use some_low_level_tasks.Copy.{Files, same_name, put, Calls, ended, main}

abbrev pub input_output : (source target : Bytes) → List Opt
input_output source target =
    record { code = b'i'; optarg = source } ∷ record { code = b'o'; optarg = target } ∷ []

same_name_refl : (name : Bytes) → same_name name name ≡ true
same_name_refl [] = refl
same_name_refl (c ∷ cs) = rw (same_name_refl cs) (ground arith)

-- With two files whose names differ, and which can be opened and made, the program exits with 0: the
-- second holds the text of the first, and no other file has changed.
pub main-copies :
    (calls : Calls) (source target text : Bytes) (stdin : Option Bytes) (files : Files)
    → calls.open_error source ≡ none
    → calls.creat_error target ≡ none
    → files source ≡ some text
    → same_name source target ≡ false
    → (after : Files) × (main calls (input_output source target) [] stdin files
        ≡ ended 0 [] after [])
      × (after target ≡ some text)
      × ((other : Bytes) → same_name other target ≡ false → after other ≡ files other)
unfolding main
main-copies calls source target text stdin files opened created has apart = (
  put (put files target []) target text,
  rw (opened, created, apart, has) refl,
  rw (same_name_refl target) refl,
  λ other ne. rw (ne) refl,
)

-- With one name for both files, which can be opened and made, the program exits with 0 and leaves that
-- file empty, whatever was in it.
pub main-empties :
    (calls : Calls) (name : Bytes) (stdin : Option Bytes) (files : Files)
    → calls.open_error name ≡ none
    → calls.creat_error name ≡ none
    → (after : Files) × (main calls (input_output name name) [] stdin files ≡ ended 0 [] after [])
      × (after name ≡ some [])
unfolding main
main-empties calls name stdin files opened created = (
  put (put files name []) name [],
  rw (opened, created, same_name_refl name) refl,
  rw (same_name_refl name) refl,
)
