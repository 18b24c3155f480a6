-- ===== src/System.antt =====
-- What the programs meet in the operating system: error numbers, and runs that end early.
pub mod Messages
pub mod Laws
use some_low_level_tasks.Prelude.{
  ℕ, zero, suc, ◌+◌, ◌/◌, Option, none, some, List, [], ◌∷◌, ◌++◌, length, leb, if◌then◌else◌,
}
use some_low_level_tasks.Prelude.Int.{ℤ, pos, negsuc, sub_ℕ}
use some_low_level_tasks.Text.{Bytes, codes, decimal}

-- The values of `errno` that the programs tell apart.
pub data Errno : Type 0 where
  eacces eagain ebadf edeadlk edquot efault einval eintr enoent eoverflow eperm erofs esrch : Errno
  other_error : ℕ → Errno

-- A run that goes on with a value, or that exits with a code and what it wrote to stderr. A division by
-- zero, an access outside of an array or of the arguments of a format, and a wait that nothing ends end
-- it in `crashed`, `overflow` and `blocked`.
pub data Run (A : Type 0) : Type 0 where
  done : A → Run A
  exited : ℕ → Bytes → Run A
  crashed overflow blocked : Run A

abbrev pub and_then : {A B : Type 0} → Run A → (A → Run B) → Run B
and_then (done a) f = f a
and_then (exited code message) f = exited code message
and_then crashed f = crashed
and_then overflow f = overflow
and_then blocked f = blocked

infixl 5 ◌>>=◌ ◌>>◌
abbrev pub ◌>>=◌ : {A B : Type 0} → Run A → (A → Run B) → Run B
m >>= f = and_then m f

abbrev pub ◌>>◌ : {A B : Type 0} → Run A → Run B → Run B
m >> n = m >>= λ _. n

-- `sprintf` into an array of `size` bytes, with its terminator.
abbrev pub into : ℕ → Bytes → Run Bytes
into size text = if leb size (length text) then overflow else done text

-- A call that returns -1 with an error number, where the program exits with 2 and a message.
abbrev pub called : {A : Type 0} → (Errno → Bytes) → Option Errno → A → Run A
called message none a = done a
called message (some e) a = exited 2 (message e)

-- The quotient of C: towards zero, and SIGFPE for 0.
abbrev pub quot : ℤ → ℤ → Run ℤ
quot (pos a) (pos zero) = crashed
quot (negsuc a) (pos zero) = crashed
quot (pos a) (pos (suc b)) = done (pos (a / suc b))
quot (negsuc a) (pos (suc b)) = done (sub_ℕ 0 (suc a / suc b))
quot (pos a) (negsuc b) = done (sub_ℕ 0 (a / suc b))
quot (negsuc a) (negsuc b) = done (pos (suc a / suc b))

-- What `getopt_long` returned for one option: the code in its table, `'?'` where it is not there,
-- and `optarg`.
pub record Opt : Type 0 where
  pub code : ℕ
  pub optarg : Bytes

-- `*optarg`
abbrev pub first_char : Bytes → ℕ
first_char [] = 0
first_char (c ∷ text) = c

-- What is printed for the words that follow the options.
unfoldable pub invalid_arguments : List Bytes → Bytes → Bytes
invalid_arguments words usage =
    codes "Invalid arguments: " ++ each_word words ++ codes ". " ++ usage
  where
    each_word : List Bytes → Bytes
    each_word [] = []
    each_word (word ∷ more) = word ++ codes " " ++ each_word more

-- A call for each thread from `t` on, and the threads for which it was made.
unfoldable pub each_thread : (ℕ → Run (Unit {0})) → (t left : ℕ) → Run (List ℕ)
each_thread call t zero = done []
each_thread call t (suc left) =
    let rest = each_thread call (t + 1) left in do call t; started ← rest; done (t ∷ started)

-- How the calls of `open`, `sprintf` and `write` end.
pub record Outputs : Type 0 where
  pub opened : Option Errno
  pub printed : Option Errno
  pub written : Option Errno
