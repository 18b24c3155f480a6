-- ===== src/NetConsole/Connect.antt =====
-- The start of project 4c/lab4c.c: `process_args` and `connect_host`. What `getopt_long`, the sockets and
-- the SSL library do are parameters.
pub mod Laws
use some_low_level_tasks.Prelude.{
  ℕ, Bool, true, false, not, ◌==◌, Option, none, some, List, [], ◌∷◌, ◌++◌, ◌-◌, length, take,
  if◌then◌else◌, ◌≡◌, ◌≢◌, refl,
}
use some_low_level_tasks.Prelude.Int.{ℤ, pos, negsuc}
use some_low_level_tasks.Text.{Bytes, codes, atoi}
use some_low_level_tasks.System.{
  Errno, Run, done, exited, crashed, overflow, ◌>>=◌, ◌>>◌, Opt, invalid_arguments,
}

unfoldable pub correct_usage : Bytes
correct_usage =
    codes
      "Correct usage:\r\n/lab4b port_number --period=# --scale=F|C --log=filename\r\n--period     : sampling interval in seconds\r\n--scale      : temperature in Fahrenheit or Celsius\r\n--log        : name of file to log report\r\n--id         : id of student\r\n--host       : host name of server\r\n"

-- The result of each call on the way to the host: an error number, or what the SSL library prints.
pub record Calls : Type 0 where
  pub strerror : Errno → Bytes
  pub log_opens : Bytes → Bool
  pub socket : Option Errno
  pub gethostbyname : Bytes → Option Errno
  pub connect : Bytes → ℤ → Option Errno
  pub ssl_connect : Option Bytes
  pub sends : Bytes → Bool  -- the result of the first write is not negative

pub record Settings : Type 0 where
  pub log_open : Bool  -- `log_fd != -1`
  pub student_id : Option Bytes
  pub host_name : Option Bytes
  pub overrun : ℕ  -- how many bytes `sprintf` wrote behind the array `write_id`

abbrev pub default_settings : Settings
default_settings = record { log_open = false; student_id = none; host_name = none; overrun = 0 }

-- The last character of the name that the program was called by.
unfoldable pub is_secure : (name : Bytes) → Run Bool
is_secure [] = overflow
is_secure (c ∷ []) = done (c == b's')
is_secure (c ∷ d ∷ name) = is_secure (d ∷ name)

-- One round of the loop.
abbrev pub set_option : Calls → Opt → Settings → Run Settings
set_option calls o s =
    if o.code == b'l'
    then done (record s { log_open = calls.log_opens o.optarg })
    else if o.code == b'i'
    then done (record s { student_id = some o.optarg })
    else if o.code == b'h'
    then done (record s { host_name = some o.optarg })
    else exited 1 correct_usage

abbrev pub set_options : Calls → List Opt → Settings → Run Settings
set_options calls [] s = done s
set_options calls (o ∷ opts) s = set_option calls o s >>= λ next. set_options calls opts next

-- The words behind the options; with none, `atoi` reads through NULL.
abbrev pub read_port : List Bytes → Run ℤ
read_port [] = crashed
read_port (port ∷ []) = done (atoi port)
read_port words = exited 1 (invalid_arguments words correct_usage)

-- `strlen(student_id) != 9`, which reads through NULL without the option.
abbrev pub check_id : Option Bytes → Run Bytes
check_id none = crashed
check_id (some id) =
    if length id == 9 then done id else exited 1 (codes "ID must be 9 digits long.\r\n")

abbrev pub check_host : ℤ → Option Bytes → Run Bytes
check_host port none = exited 1 correct_usage
check_host (pos n) (some host) = if n == 0 then exited 1 correct_usage else done host
check_host (negsuc n) (some host) = done host

abbrev pub reached : (Errno → Bytes) → (code : ℕ) → (what : Bytes) → Option Errno → Run (Unit {0})
reached strerror code what none = done tt
reached strerror code what (some e) = exited code (strerror e ++ what)

unfoldable pub connect_host : Calls → (host : Bytes) → (port : ℤ) → Run (Unit {0})
connect_host calls host port = do
  reached calls.strerror 2 (codes ". Unable to obtain socket descriptor.\r\n") calls.socket
  reached calls.strerror 1 (codes ". Host does not exist.\r\n") (calls.gethostbyname host)
  reached calls.strerror 2 (codes ". Failed to connect to the host.\r\n") (calls.connect host port)

-- The outcome of `init_context` where the connection is to be secure.
abbrev pub init_context : (secure : Bool) → Option Bytes → Run (Unit {0})
init_context true (some message) = exited 2 message
init_context _ _ = done tt

-- What `sprintf` writes, with its terminator.
abbrev pub write_id : Bytes → Bytes
write_id student_id = codes "ID=" ++ student_id ++ 10 ∷ 0 ∷ []

abbrev pub sent_id : (sends : Bool) → Settings → Run Settings
sent_id true s = done s
sent_id false s = exited 2 (codes "Unable to write to host.\r\n")

-- `write_id` has 13 bytes. What stands behind it is not in the model, and the run goes on as if it were
-- not used again.
unfoldable pub process_args : Calls → (name : Bytes) → List Opt → List Bytes → Run Settings
process_args calls name opts words = do
  secure ← is_secure name
  s ← set_options calls opts default_settings
  port ← read_port words
  student_id ← check_id s.student_id
  host ← check_host port s.host_name
  connect_host calls host port
  init_context secure calls.ssl_connect
  let text = write_id student_id
  sent_id (calls.sends (take 13 text)) (record s { overrun = length text - 13 })
