-- ===== src/Relay/Ends.antt =====
-- Which ends of the pipes the two processes of project 1b (lab1b-server.c) have.
use some_low_level_tasks.Prelude.{
  ℕ, ◌≤◌, ◌<◌, ◌≡◌, ◌≢◌, refl, sym, false, some, arith, inl, inr, ◌∙◌,
}
use some_low_level_tasks.Text.{Bytes}
use some_low_level_tasks.System.{Errno, done}
use some_low_level_tasks.Relay.Check.{Result, lt_0}
use some_low_level_tasks.Relay.Pipes.{
  establish_shell, rw_pipe, wr_pipe, read_end, write_end, Table, close_fd, port_of, dup2, PipeFds,
  with_pipes, shell_side, terminal_side, close_ends, holds,
}
use some_low_level_tasks.Relay.Descriptors.{
  OnlyAt, holds-close_fd, holds-close_only, OnlyAt-close_fd, OnlyAt-none, holds-dup2,
  port_of-close_fd, port_of-dup2, port_of-dup2_new,
}

-- The four descriptors are different, and none of them is that of a standard stream.
pub record IsFresh (p : PipeFds) : Type 0 where
  pub rw_read_high : 2 < p.rw_read
  pub rw_write_high : 2 < p.rw_write
  pub wr_read_high : 2 < p.wr_read
  pub wr_write_high : 2 < p.wr_write
  pub rw_ends : p.rw_read ≢ p.rw_write
  pub wr_ends : p.wr_read ≢ p.wr_write
  pub read_ends : p.rw_read ≢ p.wr_read
  pub write_ends : p.rw_write ≢ p.wr_write
  pub rw_read_wr_write : p.rw_read ≢ p.wr_write
  pub rw_write_wr_read : p.rw_write ≢ p.wr_read

module _ (p : PipeFds) (fresh : IsFresh p) (table : Table) where
  low : {m fd : ℕ} → m ≤ 2 → 2 < fd → m ≢ fd
  low l h e = omega (arith, l, h, e)

  -- The last two calls close no standard stream.
  port_of-shell_side :
      (m : ℕ) (joined : Table)
      → m ≤ 2
      → port_of m (close_fd p.rw_write (close_fd p.wr_read joined)) ≡ port_of m joined
  port_of-shell_side m joined l =
      port_of-close_fd m p.rw_write (close_fd p.wr_read joined) (low l fresh.rw_write_high)
      ∙ port_of-close_fd m p.wr_read joined (low l fresh.wr_read_high)

  abbrev own : Table
  own = close_fd p.rw_read (close_fd p.wr_write (with_pipes p table))

  own-wr_read : port_of p.wr_read own ≡ some (read_end wr_pipe)
  unfolding port_of
  own-wr_read =
      port_of-close_fd p.wr_read p.rw_read _ (λ e. fresh.read_ends (sym e))
      ∙ (port_of-close_fd p.wr_read p.wr_write (with_pipes p table) fresh.wr_ends
          ∙ ground (arith, fresh.read_ends, fresh.rw_write_wr_read))

  own-rw_write : port_of p.rw_write own ≡ some (write_end rw_pipe)
  unfolding port_of
  own-rw_write =
      port_of-close_fd p.rw_write p.rw_read _ (λ e. fresh.rw_ends (sym e))
      ∙ (port_of-close_fd p.rw_write p.wr_write (with_pipes p table) fresh.write_ends
          ∙ ground (arith, fresh.rw_ends))

  stdin_joined : port_of 0 (shell_side p (with_pipes p table)) ≡ some (read_end wr_pipe)
  unfolding shell_side
  stdin_joined =
      port_of-shell_side 0 _ (omega arith)
      ∙ (port_of-dup2 0 p.rw_write 2 _ (omega arith)
          ∙ (port_of-dup2 0 p.rw_write 1 _ (omega arith)
              ∙ port_of-dup2_new p.wr_read 0 (read_end wr_pipe) own
                  (omega (arith, fresh.wr_read_high)) own-wr_read))

  abbrev fed : Table
  fed = dup2 p.wr_read 0 own

  fed-rw_write : port_of p.rw_write fed ≡ some (write_end rw_pipe)
  fed-rw_write =
      port_of-dup2 p.rw_write p.wr_read 0 own (omega (arith, fresh.rw_write_high)) ∙ own-rw_write

  stdout_joined : port_of 1 (shell_side p (with_pipes p table)) ≡ some (write_end rw_pipe)
  unfolding shell_side
  stdout_joined =
      port_of-shell_side 1 _ (omega arith)
      ∙ (port_of-dup2 1 p.rw_write 2 _ (omega arith)
          ∙ port_of-dup2_new p.rw_write 1 (write_end rw_pipe) fed
              (omega (arith, fresh.rw_write_high)) fed-rw_write)

  stderr_joined : port_of 2 (shell_side p (with_pipes p table)) ≡ some (write_end rw_pipe)
  unfolding shell_side
  stderr_joined =
      port_of-shell_side 2 _ (omega arith)
      ∙ port_of-dup2_new p.rw_write 2 (write_end rw_pipe) (dup2 p.rw_write 1 fed)
          (omega (arith, fresh.rw_write_high))
          (port_of-dup2 p.rw_write p.rw_write 1 fed (omega (arith, fresh.rw_write_high))
            ∙ fed-rw_write)

  module _ (none_before : holds (write_end wr_pipe) table ≡ false) where
    with_pipes-OnlyAt : OnlyAt (write_end wr_pipe) p.wr_write (with_pipes p table)
    with_pipes-OnlyAt = (
      inl refl,
      (
        inl refl,
        (inl refl, (inr refl, OnlyAt-none (write_end wr_pipe) p.wr_write table none_before)),
      ),
    )

    shell_side-holds : holds (write_end wr_pipe) (shell_side p (with_pipes p table)) ≡ false
    unfolding shell_side
    shell_side-holds =
        let port = write_end wr_pipe in
        let closed = holds-close_only port p.wr_write (with_pipes p table) with_pipes-OnlyAt in
        holds-close_fd port p.rw_write _ (
          holds-close_fd port p.wr_read _ (
            holds-dup2 port p.rw_write 2 _ (
              holds-dup2 port p.rw_write 1 _
                (holds-dup2 port p.wr_read 0 own (holds-close_fd port p.rw_read _ closed)))))

    terminal_side-holds :
        holds (write_end wr_pipe) (close_ends p (terminal_side p (with_pipes p table))) ≡ false
    unfolding terminal_side close_ends
    terminal_side-holds =
        let port = write_end wr_pipe in
        holds-close_fd port p.rw_read _ (
          holds-close_only port p.wr_write _ (
            OnlyAt-close_fd port p.wr_write p.rw_write _
              (OnlyAt-close_fd port p.wr_write p.wr_read _ with_pipes-OnlyAt)))

    -- Where the four descriptors of the pipes are new, different and above those of the standard
    -- streams, and the calls succeed, establish_shell gives the shell the pipe from the terminal as
    -- stdin and the one to the terminal as stdout and stderr; and behind close_pipes neither process
    -- has an end left that writes to the shell, so that the shell reads the end of its input.
    pub establish_shell-ends :
        (strerror : Errno → Bytes) (rw_made wr_made forked : Result)
        → lt_0 rw_made.code ≡ false
        → lt_0 wr_made.code ≡ false
        → lt_0 forked.code ≡ false
        → (shell terminal : Table) × (establish_shell strerror rw_made wr_made forked p table
            ≡ done (shell, terminal))
          × (port_of 0 shell ≡ some (read_end wr_pipe))
          × (port_of 1 shell ≡ some (write_end rw_pipe))
          × (port_of 2 shell ≡ some (write_end rw_pipe))
          × (holds (write_end wr_pipe) shell ≡ false)
          × (holds (write_end wr_pipe) (close_ends p terminal) ≡ false)
    unfolding establish_shell
    establish_shell-ends strerror rw_made wr_made forked a b c = (
      shell_side p (with_pipes p table),
      terminal_side p (with_pipes p table),
      rw (a, b, c) refl,
      stdin_joined,
      stdout_joined,
      stderr_joined,
      shell_side-holds,
      terminal_side-holds,
    )
