-- ===== src/Relay/Pipes.antt =====
-- The pipes between the relay and the shell in project 1b (lab1b-server.c): `establish_shell` and
-- `close_pipes`, on the descriptors of the two processes.
use some_low_level_tasks.Prelude.{
  ℕ, Bool, true, false, ◌||◌, Option, none, some, List, [], ◌∷◌, ◌==◌, if◌then◌else◌,
}
use some_low_level_tasks.Text.{Bytes}
use some_low_level_tasks.System.{Errno, Run, done, and_then}
use some_low_level_tasks.Relay.Check.{Result, pipe_name, fork_name, lt_0, check}

-- `rw_pipefd` goes from the shell to the terminal, `wr_pipefd` from the terminal to the shell.
pub data Pipe : Type 0 where
  rw_pipe wr_pipe : Pipe

abbrev same_pipe : Pipe → Pipe → Bool
same_pipe rw_pipe rw_pipe = true
same_pipe wr_pipe wr_pipe = true
same_pipe _ _ = false

-- What a descriptor stands for.
pub data Port : Type 0 where
  read_end write_end : Pipe → Port
  other_port : ℕ → Port

abbrev pub same_port : Port → Port → Bool
same_port (read_end p) (read_end q) = same_pipe p q
same_port (write_end p) (write_end q) = same_pipe p q
same_port (other_port m) (other_port n) = m == n
same_port _ _ = false

abbrev pub Table : Type 0
Table = List (ℕ × Port)

-- `close`
unfoldable pub close_fd : ℕ → Table → Table
close_fd fd [] = []
close_fd fd ((n, port) ∷ table) =
    let rest = close_fd fd table in if n == fd then rest else (n, port) ∷ rest

unfoldable pub port_of : ℕ → Table → Option Port
port_of fd [] = none
port_of fd ((n, port) ∷ table) = let rest = port_of fd table in if n == fd then some port else rest

abbrev duplicated : Option Port → ℕ → Table → Table
duplicated none new table = table
duplicated (some port) new table = (new, port) ∷ close_fd new table

-- `dup2`, which closes `new` where it is open.
unfoldable pub dup2 : (old new : ℕ) → Table → Table
dup2 old new table = if old == new then table else duplicated (port_of old table) new table

-- The two arrays that `pipe` fills.
pub record PipeFds : Type 0 where
  pub rw_read : ℕ
  pub rw_write : ℕ
  pub wr_read : ℕ
  pub wr_write : ℕ

abbrev pub with_pipes : PipeFds → Table → Table
with_pipes p table =
    (p.rw_read, read_end rw_pipe)
    ∷ (p.rw_write, write_end rw_pipe)
    ∷ (p.wr_read, read_end wr_pipe)
    ∷ (p.wr_write, write_end wr_pipe)
    ∷ table

-- What the shell process does with its copy before `execvp`.
unfoldable pub shell_side : PipeFds → Table → Table
shell_side p table =
    let own = close_fd p.rw_read (close_fd p.wr_write table) in
    let joined = dup2 p.rw_write 2 (dup2 p.rw_write 1 (dup2 p.wr_read 0 own)) in
    close_fd p.rw_write (close_fd p.wr_read joined)

unfoldable pub terminal_side : PipeFds → Table → Table
terminal_side p table = close_fd p.rw_write (close_fd p.wr_read table)

-- The descriptors of the shell and of the terminal behind it.
unfoldable pub establish_shell :
    (Errno → Bytes) → (rw_made wr_made forked : Result) → PipeFds → Table → Run (Table × Table)
establish_shell strerror rw_made wr_made forked p table =
    and_then (check strerror rw_made pipe_name lt_0) λ _.
      and_then (check strerror wr_made pipe_name lt_0) λ _.
        and_then (check strerror forked fork_name lt_0)
          λ _. done (shell_side p (with_pipes p table), terminal_side p (with_pipes p table))

-- `close_pipes`
unfoldable pub close_ends : PipeFds → Table → Table
close_ends p table = close_fd p.rw_read (close_fd p.wr_write table)

-- Whether some descriptor stands for the port.
unfoldable pub holds : Port → Table → Bool
holds port [] = false
holds port ((n, q) ∷ table) = same_port q port || holds port table
