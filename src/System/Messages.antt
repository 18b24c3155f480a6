-- ===== src/System/Messages.antt =====
-- The messages for a failed call that `lab2_add.c` and `lab2_list.c` of project 2a and `lab2_list.c` of
-- project 2b have in common. `strerror` is the C library's.
use some_low_level_tasks.Prelude.{ℕ, ◌+◌, ◌++◌}
use some_low_level_tasks.Text.{Bytes, codes, decimal}
use some_low_level_tasks.System.{
  Errno, eacces, eagain, ebadf, edeadlk, edquot, efault, einval, eintr, eoverflow, eperm, erofs,
  esrch,
}

abbrev otherwise : Bytes → (Errno → Bytes) → Errno → Bytes
otherwise what strerror e = what ++ codes "\r\n" ++ strerror e ++ codes "\r\n"

unfoldable pub clock_error : (Errno → Bytes) → Errno → Bytes
clock_error strerror efault = codes "Clock points outside the accessible address space.\r\n"
clock_error strerror einval = codes "Monotonic clock is not supported on this system.\r\n"
clock_error strerror eperm = codes "No permission to set the clock.\r\n"
clock_error strerror e = otherwise (codes "Miscellaneous clock error.") strerror e

-- The thread's number in front of a message.
abbrev on_thread : ℕ → Bytes
on_thread t = codes "On thread " ++ decimal (t + 1) ++ codes ": "

abbrev create_reason : (Errno → Bytes) → Errno → Bytes
create_reason strerror eagain = codes "Insufficient resources to create another thread.\r\n"
create_reason strerror einval = codes "Invalid settings in attr.\r\n"
create_reason strerror eperm = codes "No permission to set parameters specificed in attr.\r\n"
create_reason strerror e = otherwise (codes "Miscellaneous thread create error.") strerror e

unfoldable pub create_error : (Errno → Bytes) → ℕ → Errno → Bytes
create_error strerror t e = on_thread t ++ create_reason strerror e

abbrev join_reason : (Errno → Bytes) → ℕ → Errno → Bytes
join_reason strerror t edeadlk = codes "A deadlock was detected.\r\n"
join_reason strerror t einval =
    codes "Thread " ++ decimal t ++ codes " is not a joinable thread.\r\n"
join_reason strerror t esrch =
    codes "No thread with the ID " ++ decimal t ++ codes " could be found.\r\n"
join_reason strerror t e = otherwise (codes "Miscellaneous thread join error.") strerror e

unfoldable pub join_error : (Errno → Bytes) → ℕ → Errno → Bytes
join_error strerror t e = on_thread t ++ join_reason strerror t e

unfoldable pub open_error : (Errno → Bytes) → Errno → Bytes
open_error strerror eacces = codes "The requested access to file is not allowed.\r\n"
open_error strerror edquot = codes "The quota of disk blocks on filesystem has been exhausted.\r\n"
open_error strerror efault = codes "The file points outside your accessible address space.\r\n"
open_error strerror eintr = codes "The call was interrupted by a signal handler.\r\n"
open_error strerror eoverflow = codes "The file is too large to be opened.\r\n"
open_error strerror erofs = codes "The file is read-only.\r\n"
open_error strerror e = otherwise (codes "Miscellaneous file error.") strerror e

unfoldable pub format_error : (Errno → Bytes) → Errno → Bytes
format_error strerror e =
    otherwise (codes "An error occurred in building the string for output.") strerror e

unfoldable pub write_error : (Errno → Bytes) → Errno → Bytes
write_error strerror eagain =
    codes "The file descriptor for writing has been marked nonblocking.\r\n"
write_error strerror ebadf = codes "The file descriptor is not valid or open for writing.\r\n"
write_error strerror edquot = codes "The quota of disk blocks on filesystem has been exhausted.\r\n"
write_error strerror efault = codes "Buffer is outside accessible address space.\r\n"
write_error strerror eintr =
    codes "The call was interrupted by a signal before any data was written.\r\n"
write_error strerror einval = codes "The file is unsuitable for writing, or is misaligned.\r\n"
write_error strerror e = otherwise (codes "Miscellaneous writing error.") strerror e
