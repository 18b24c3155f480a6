-- ===== src/Relay/Check.antt =====
-- `check` of project 1b (lab1b-server.c): the calls it tests, its comparators and its messages.
use some_low_level_tasks.Prelude.{ℕ, zero, suc, Bool, true, false, ◌++◌, ◌==◌, leb, if◌then◌else◌}
use some_low_level_tasks.Prelude.Int.{ℤ, pos, negsuc}
use some_low_level_tasks.Text.{Bytes, codes}
use some_low_level_tasks.System.{Errno, Run, done, exited}

-- `enum FuncName`
pub data FuncName : Type 0 where
  atexit_name pipe_name fork_name exec_name kill_name wait_name setattr_name open_name : FuncName
  keysize_name sock_name bind_name accept_name connect_name signal_name gethost_name : FuncName
  read_name write_name encrypt_name decrypt_name : FuncName

abbrev pub error_in : FuncName → Bytes
error_in atexit_name = codes "registering functions to be called at process termination"
error_in pipe_name = codes "creating pipes for interprocess communication"
error_in fork_name = codes "forking the terminal process"
error_in exec_name = codes "creating the shell process"
error_in kill_name = codes "sending SIGINT to the shell"
error_in wait_name = codes "waiting for the termination status of the shell process"
error_in setattr_name = codes "setting the terminal attribute"
error_in sock_name = codes "opening the listening socket"
error_in bind_name = codes "binding an address to socket"
error_in accept_name = codes "accepting the connected socket"
error_in connect_name = codes "connecting to the host socket"
error_in gethost_name = codes "trying to find the host"
error_in signal_name = codes "settings up a signal handler"
error_in open_name = codes "opening a file"
error_in keysize_name = codes "validating size of the encryption key"
error_in read_name = codes "reading from a file or socket"
error_in write_name = codes "writing to a file or socket"
error_in encrypt_name = codes "encrypting some plain text"
error_in decrypt_name = codes "decrypting some cipher text"

-- What a call returned, and `errno` behind it.
pub record Result : Type 0 where
  pub code : ℤ
  pub errno : Errno

-- The comparators.
abbrev pub lt_0 : ℤ → Bool
lt_0 (pos rc) = false
lt_0 (negsuc rc) = true

abbrev pub not_0 : ℤ → Bool
not_0 (pos zero) = false
not_0 (pos (suc rc)) = true
not_0 (negsuc rc) = true

abbrev pub is_null : ℤ → Bool
is_null (pos rc) = rc == 0
is_null (negsuc rc) = false

-- SIG_ERR is -1.
abbrev pub is_sig_err : ℤ → Bool
is_sig_err (pos rc) = false
is_sig_err (negsuc rc) = rc == 0

abbrev pub gt_key_size : ℕ → ℤ → Bool
gt_key_size key_size (pos rc) = leb key_size rc
gt_key_size key_size (negsuc rc) = false

unfoldable pub check_message : (Errno → Bytes) → FuncName → Errno → Bytes
check_message strerror name e =
    codes "An error occurred while " ++ error_in name ++ codes ".\r\n" ++ strerror e ++ codes "\r\n"

abbrev pub check : (Errno → Bytes) → Result → FuncName → (ℤ → Bool) → Run (Unit {0})
check strerror r name comp =
    if comp r.code then exited 1 (check_message strerror name r.errno) else done tt
