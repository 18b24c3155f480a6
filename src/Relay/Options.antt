-- ===== src/Relay/Options.antt =====
-- The options of project 1b (lab1b-server.c): `process_option`. What `getopt_long` returns and the files
-- are parameters.
use some_low_level_tasks.Prelude.{
  ℕ, Bool, false, Option, none, some, List, [], ◌∷◌, ◌++◌, ◌==◌, if◌then◌else◌, take,
}
use some_low_level_tasks.Prelude.Int.{ℤ, pos, negsuc}
use some_low_level_tasks.Text.{Bytes, codes, atoi}
use some_low_level_tasks.System.{
  Errno, Run, done, exited, overflow, and_then, Opt, first_char, invalid_arguments,
}
use some_low_level_tasks.Relay.Check.{Result, open_name, lt_0, check}

-- `struct param_args`
pub record ParamArgs : Type 0 where
  pub port_number : ℤ
  pub key : Bytes
  pub log_file : Bytes
  pub host_name : Bytes

-- How a file opens, and its bytes, or none where they cannot be read.
pub record Files : Type 0 where
  pub strerror : Errno → Bytes
  pub open_file : Bytes → Result
  pub contents : Bytes → Option Bytes

abbrev pub bufsize : ℕ
bufsize = 512

-- The bytes of a string: those in front of a NUL.
unfoldable pub before_nul : Bytes → Bytes
before_nul [] = []
before_nul (c ∷ text) = let rest = before_nul text in if c == 0 then [] else c ∷ rest

abbrev pub default_args : ParamArgs
default_args = record { port_number = pos 0; key = []; log_file = []; host_name = [] }

unfoldable pub usage : (is_server : Bool) → Bytes
usage is_server =
    codes "The correct usage is:\r\n"
    ++ (if is_server
        then codes "/lab1b-server --port=portno --encrypt=filename"
        else codes "/lab1b-client --port=portno --encrypt=filename --host=name --log=filename")
    ++ codes "\r\n"

-- Where `read` gives -1, `strndup` gets that as its length, and `buf` was never set.
abbrev pub read_key : Option Bytes → Run Bytes
read_key none = overflow
read_key (some bytes) = done (before_nul (take bufsize bytes))

abbrev pub unrecognized : {A : Type 0} → (is_server : Bool) → Run A
unrecognized is_server = exited 1 (codes "Unrecognized option. " ++ usage is_server)

abbrev pub encrypt_option : Files → Bytes → ParamArgs → Run ParamArgs
encrypt_option files name a =
    and_then (check files.strerror (files.open_file name) open_name lt_0)
      (λ _. and_then (read_key (files.contents name)) (λ key. done (record a { key = key })))

-- One option; in the server `'l'` and `'h'` fall through to the default.
unfoldable pub set_option : (is_server : Bool) → Files → Opt → ParamArgs → Run ParamArgs
set_option is_server files o a =
    if o.code == 0
    then done a
    else if o.code == b'p'
    then done (record a { port_number = atoi o.optarg })
    else if o.code == b'e'
    then encrypt_option files o.optarg a
    else if o.code == b'l'
    then (if is_server then unrecognized is_server else done (record a { log_file = o.optarg }))
    else if o.code == b'h'
    then (if is_server then unrecognized is_server else done (record a { host_name = o.optarg }))
    else unrecognized is_server

unfoldable pub set_options : (is_server : Bool) → Files → List Opt → ParamArgs → Run ParamArgs
set_options is_server files [] a = done a
set_options is_server files (o ∷ opts) a =
    and_then (set_option is_server files o a) (set_options is_server files opts)

unfoldable pub no_words : (is_server : Bool) → List Bytes → ParamArgs → Run ParamArgs
no_words is_server [] a = done a
no_words is_server (word ∷ words) a = exited 1 (invalid_arguments (word ∷ words) (usage is_server))

abbrev pub port_missing : Bytes
port_missing =
    codes "The argument --port=portno is mandatory.\r\n"
    ++ codes "Port must be a positive number.\r\n"

abbrev pub is_zero : ℤ → Bool
is_zero (pos n) = n == 0
is_zero (negsuc n) = false

abbrev pub default_host : Bytes
default_host = codes "lnxsrv09.seas.ucla.edu"

-- An empty key or log file stays empty.
unfoldable pub end_options : ParamArgs → Run ParamArgs
end_options a =
    if is_zero a.port_number
    then exited 1 port_missing
    else done
        (record a { host_name = if first_char a.host_name == 0 then default_host else a.host_name })

unfoldable pub process_option :
    (is_server : Bool) → Files → List Opt → (words : List Bytes) → Run ParamArgs
process_option is_server files opts words =
    and_then (set_options is_server files opts default_args)
      (λ a. and_then (no_words is_server words a) end_options)
