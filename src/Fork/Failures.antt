-- ===== src/Fork/Failures.antt =====
-- What src/fork.rs does when a child does not report, or its pipe cannot be read.
use pve_lxc_syscalld.Base.{
  if◌then◌else◌, kind_other, Bool, Error, ℕ, ◌<◌, ltb, ℤ, pos, minus_one, eq_ℤ, ◌∷◌, length, ok,
  err, panic, os, io_kind, unexpected_eof, ◌≡◌, true, false, refl, arith,
}
use pve_lxc_syscalld.Kernel.{
  ◌>>◌, attempt, pure, throw, Action, Kernel, History, exit, register_pipe, read_pipe, kill,
  waitpid, c_result,
}
use pve_lxc_syscalld.Io.Waiting.{again}
use pve_lxc_syscalld.Syscall.{SyscallStatus}
use pve_lxc_syscalld.Fork.{
  packet_of, child_main, child_body, run_and_send, send_or_panic, new, wait, get_result, finish,
  forking_syscall,
}
use pve_lxc_syscalld.Fork.EndToEnd.{IsFine, Forks, Blocks, unblocked, forked, started}
use pve_lxc_syscalld.Fork.Waiting.{EndsAfter, wait_loop_returns}

ignored :
    (b : Bool) (e : Error) (k : Kernel) (h : History)
    → (attempt (if b then pure (tt {0}) else throw (io_kind kind_other))
          >> throw {A = SyscallStatus} e)
        k h
      ≡ (err e, h)
ignored true e k h = refl
ignored false e k h = refl

-- An error on the way drops `Fork`, which waits for the child and keeps the error.
dropped :
    (k : Kernel) (pid : ℤ) (e : Error) (h : History) (n : ℕ)
    → n < k.rounds
    → EndsAfter k pid h n
    → finish pid (err e) k h ≡ (err e, waitpid pid ∷ again n (waitpid pid) h)
unfolding finish wait
dropped k pid e h n lt ends = rw (wait_loop_returns n k.rounds pid k h lt ends) (
    ignored (eq_ℤ (k.reply (again n (waitpid pid) h) (waitpid pid)).status (pos 0)) e k
      (waitpid pid ∷ again n (waitpid pid) h))

module _ (func : Action SyscallStatus) (k : Kernel) (h : History) (pid : ℤ) (h3 : History) where
  child_main_panics :
      (flags : ℕ)
      → Blocks k h flags
      → func k (started flags h) ≡ (panic, h3)
      → child_main func k (forked h) ≡ (ok tt, exit minus_one ∷ h3)
  unfolding child_main child_body run_and_send send_or_panic packet_of
  child_main_panics flags w e = rw (unblocked k h flags w, e) refl

  -- If the pipe of a child cannot be registered with the runtime, the call fails with that error, and the
  -- last call is the one that kills the child: it is not waited for.
  pub forking_syscall_kills :
      Forks k h pid
      → child_main func k (forked h) ≡ (ok tt, h3)
      → eq_ℤ (k.reply h3 register_pipe).res minus_one ≡ true
      → forking_syscall func k h
        ≡ (err (os (k.reply h3 register_pipe).errno), kill pid 9 ∷ register_pipe ∷ h3)
  unfolding forking_syscall new c_result
  forking_syscall_kills w e bad = rw w.piped (rw (w.forks, w.is_pid) (rw e (rw bad refl)))

  -- If a child panics before it has reported, and so the pipe ends early, the call fails with
  -- `UnexpectedEof`, whatever the status of the child, and only after the child was waited for.
  pub forking_syscall_dies :
      (flags n : ℕ)
      → Forks k h pid
      → Blocks k h flags
      → func k (started flags h) ≡ (panic, h3)
      → IsFine (k.reply (exit minus_one ∷ h3) register_pipe)
      → IsFine (k.reply (register_pipe ∷ exit minus_one ∷ h3) (read_pipe 16))
      → length (k.reply (register_pipe ∷ exit minus_one ∷ h3) (read_pipe 16)).out < 16
      → n < k.rounds
      → EndsAfter k pid (read_pipe 16 ∷ register_pipe ∷ exit minus_one ∷ h3) n
      → forking_syscall func k h ≡ (
        err (io_kind unexpected_eof),
        waitpid pid ∷ again n (waitpid pid) (read_pipe 16 ∷ register_pipe ∷ exit minus_one ∷ h3),
      )
  unfolding forking_syscall new get_result finish wait c_result
  forking_syscall_dies flags n w b e registered readable short lt ends =
      let child = child_main_panics flags b e in
      let cut : ltb (length (k.reply (register_pipe ∷ exit minus_one ∷ h3) (read_pipe 16)).out) 16
          ≡ true =
        ground (arith, short) in
      rw w.piped (
        rw (w.forks, w.is_pid)
          (rw child (
            rw registered (
              rw readable (
                rw cut (
                  dropped k pid (io_kind unexpected_eof)
                    (read_pipe 16 ∷ register_pipe ∷ exit minus_one ∷ h3) n lt ends))))))
