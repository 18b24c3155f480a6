-- ===== src/Copy.antt =====
-- Project 0/lab0.c: a copy from the standard input to the standard output, with options that put files
-- in their place, and a segmentation fault that can be caught.
-- What `getopt_long` returns and the errors of `open` and `creat` are parameters. A file is known by its
-- name, and a read or write of a regular file is never short.
pub mod Laws
mod Tests
use some_low_level_tasks.Prelude.{
  ℕ, Bool, true, false, ◌&&◌, ◌==◌, Option, none, some, List, [], ◌∷◌, ◌++◌, if◌then◌else◌,
}
use some_low_level_tasks.Text.{Bytes, codes}
use some_low_level_tasks.System.{
  Errno, eacces, einval, enoent, Run, done, exited, ◌>>=◌, Opt, invalid_arguments,
}

-- The files by name, `none` where there is none.
abbrev pub Files : Type 0
Files = Bytes → Option Bytes

abbrev pub same_name : Bytes → Bytes → Bool
same_name [] [] = true
same_name [] (d ∷ ds) = false
same_name (c ∷ cs) [] = false
same_name (c ∷ cs) (d ∷ ds) = c == d && same_name cs ds

abbrev pub put : Files → Bytes → Bytes → Files
put files name text other = if same_name other name then some text else files other

-- The variables that the options set; `catching` says that `sighandler` is set for SIGSEGV.
pub record Settings : Type 0 where
  pub in_file : Option Bytes
  pub out_file : Option Bytes
  pub seg_option : Bool
  pub catching : Bool

abbrev pub default_settings : Settings
default_settings = record { in_file = none; out_file = none; seg_option = false; catching = false }

unfoldable pub usage : Bytes
usage = codes "The correct usage is:\n/lab0 --input=filename --output=filename --segfault --catch"

-- One round of the loop.
abbrev pub set_option : Opt → Settings → Run Settings
set_option o s =
    if o.code == 0
    then done s
    else if o.code == b'i'
    then done (record s { in_file = some o.optarg })
    else if o.code == b'o'
    then done (record s { out_file = some o.optarg })
    else if o.code == b's'
    then done (record s { seg_option = true })
    else if o.code == b'c'
    then done (record s { catching = true })
    else exited 1 (codes "Unrecognized options. " ++ usage)

abbrev pub set_options : List Opt → Settings → Run Settings
set_options [] s = done s
set_options (o ∷ opts) s = set_option o s >>= λ next. set_options opts next

abbrev pub no_words : List Bytes → Settings → Run Settings
no_words [] s = done s
no_words words s = exited 1 (invalid_arguments words usage)

-- The calls that can fail, and the text of an error.
pub record Calls : Type 0 where
  pub strerror : Errno → Bytes
  pub open_error : Bytes → Option Errno
  pub creat_error : Bytes → Option Errno

-- Standard input and output: a file, or what the process was started with, where `none` is an input
-- that `lseek` does not know, such as a pipe.
pub data Input : Type 0 where
  from_file : Bytes → Input
  from_stdin : Option Bytes → Input

pub data Output : Type 0 where
  to_file : Bytes → Output
  to_stdout : Output

abbrev pub processing : (option name : Bytes) → Bytes → Bytes
processing option name reason =
    codes "An error has occurred while processing --"
    ++ option
    ++ codes "="
    ++ name
    ++ codes ".\n"
    ++ reason

abbrev pub input_error : (Errno → Bytes) → Bytes → Errno → Bytes
input_error strerror name enoent = processing (codes "input") name (strerror enoent)
input_error strerror name einval = processing (codes "input") name (strerror einval)
input_error strerror name e = []

abbrev pub output_error : (Errno → Bytes) → Bytes → Errno → Bytes
output_error strerror name eacces = processing (codes "output") name (strerror eacces)
output_error strerror name einval = processing (codes "output") name (strerror einval)
output_error strerror name e = []

-- A call with its error number, and the exit that follows one.
abbrev pub unless_failed : {A : Type 0} → Option Errno → (Errno → Run A) → Run A → Run A
unless_failed none exit rest = rest
unless_failed (some e) exit rest = exit e

abbrev pub redirect_input : Calls → Option Bytes → Input → Run Input
redirect_input calls none input = done input
redirect_input calls (some name) input =
    unless_failed (calls.open_error name) (λ e. exited 2 (input_error calls.strerror name e))
      (done (from_file name))

-- `creat` makes the file, or empties the one that is there.
abbrev pub redirect_output : Calls → Option Bytes → Files → Run (Output × Files)
redirect_output calls none files = done (to_stdout, files)
redirect_output calls (some name) files =
    unless_failed (calls.creat_error name) (λ e. exited 3 (output_error calls.strerror name e))
      (done (to_file name, put files name []))

-- How the process ends: with an exit code, what is on stderr, the files and what went to the first
-- stdout; or by SIGSEGV.
pub data End : Type 0 where
  ended : (code : ℕ) → (stderr : Bytes) → Files → (stdout : Bytes) → End
  killed : Files → End

abbrev text_of : Option Bytes → Bytes
text_of none = []
text_of (some text) = text

-- What `read` puts into `buf`. Where `lseek` returns -1 the array cannot be allocated, and `read` and
-- `write` fail on its address.
abbrev pub content : Files → Input → Bytes
content files (from_file name) = text_of (files name)
content files (from_stdin text) = text_of text

abbrev pub write_all : Bytes → Files → Output → End
write_all text files (to_file name) = ended 0 [] (put files name text) []
write_all text files to_stdout = ended 0 [] files text

-- `segfault`, and `sighandler` where it is set.
abbrev pub segfault : (catching : Bool) → Files → End
segfault true files =
    ended 4 (codes "Segmentation fault generated has been caught by --catch.") files []
segfault false files = killed files

abbrev pub copy : Settings → Input → Output → Files → End
copy s input output files =
    if s.seg_option then segfault s.catching files else write_all (content files input) files output

abbrev pub end_run : Files → Run End → End
end_run files (done e) = e
end_run files (exited code message) = ended code message files []
end_run files _ = killed files

unfoldable pub main : Calls → List Opt → List Bytes → (stdin : Option Bytes) → Files → End
main calls opts words stdin files = end_run files (
    set_options opts default_settings >>= λ set. no_words words set >>= λ s.
    redirect_input calls s.in_file (from_stdin stdin) >>= λ input.
    redirect_output calls s.out_file files >>= λ (redirected : Output × Files).
    done (copy s input redirected.0 redirected.1))
