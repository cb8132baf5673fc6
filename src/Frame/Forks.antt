-- ===== src/Frame/Forks.antt =====
-- `Frames` for src/fork.rs, of the child and the daemon together.
use pve_lxc_syscalld.Base.{
  expect_ok, ℕ, zero, suc, ℤ, pos, minus_one, eq_ℤ, ◌∷◌, Option, none, some, Result, ok, err, panic,
  hang, refl, Bool, false, ◌≡◌, ◌<◌, arith, is_hang,
}
use pve_lxc_syscalld.Libc.{eintr}
use pve_lxc_syscalld.Kernel.{write_pipe, fork, Action, Kernel, History, waitpid}
use pve_lxc_syscalld.Syscall.{SyscallStatus}
use pve_lxc_syscalld.Tools.{set_fd_nonblocking, known_flags}
use pve_lxc_syscalld.Fork.{
  Packet, encode_packet, packet_of, send_packet, send_or_panic, run_and_send, exit_with,
  registered_or_kill, child_body, child_main, new, wait_loop, wait, get_result, finish,
  forking_syscall,
}
use pve_lxc_syscalld.Io.Pipe.{pipe_fds, try_into_pipe}
use pve_lxc_syscalld.Frame.{Apart, same, aside, Reaps, Frames}
use pve_lxc_syscalld.Frame.Returns.{unwrap_returns, expect_ok_returns}
use pve_lxc_syscalld.Frame.Rules.{
  Frames-c_try, Frames-then, Frames-attempt, Frames-bind, framing, if-Apart, Apart-trans,
  Frames-lift, Frames-pure, Frames-attempted,
}

Frames-send_packet : (p : Packet) → Frames (send_packet p)
unfolding send_packet
Frames-send_packet p =
    Frames-bind _ _ (Frames-attempt _ (Frames-c_try (write_pipe (encode_packet p)) refl)) elim [
      | ok r ↦ Frames-pure (pos 0)
      | err e ↦ Frames-pure (pos 1)
      | panic ↦ Frames-pure (pos 1)
      | hang ↦ Frames-pure (pos 1)
    ]

Frames-send_or_panic : (o : Option Packet) → Frames (send_or_panic o)
unfolding send_or_panic
Frames-send_or_panic none = Frames-lift panic refl
Frames-send_or_panic (some p) = Frames-send_packet p

Frames-known_flags : (bits : ℕ) → Frames (known_flags bits)
Frames-known_flags bits = record {
  run = λ k h. same;
  returns = λ k h w. unwrap_returns (k.flags_from_bits bits);
}

Frames-set_fd_nonblocking : (on : Bool) → Frames (set_fd_nonblocking on)
unfolding set_fd_nonblocking
Frames-set_fd_nonblocking on = search (framing, Frames-known_flags)

Frames-child_body : (func : Action SyscallStatus) → Frames func → Frames (child_body func)
unfolding child_body run_and_send
Frames-child_body func p = Frames-attempted _ _ (Frames-set_fd_nonblocking false) λ blocking e.
    Frames-then _ _ (Frames-lift (expect_ok blocking) (expect_ok_returns blocking e))
      (Frames-bind _ _ (Frames-attempt func p) λ out. Frames-send_or_panic (packet_of out))

Frames-exit_with : (r : Result ℤ) → Frames (exit_with r)
Frames-exit_with (ok s) = search framing
Frames-exit_with (err e) = search framing
Frames-exit_with panic = search framing
Frames-exit_with hang = search framing

Frames-child_main : (func : Action SyscallStatus) → Frames func → Frames (child_main func)
unfolding child_main
Frames-child_main func p =
    Frames-bind _ _ (Frames-attempt _ (Frames-child_body func p))
      λ status. Frames-then _ _ (Frames-exit_with status) (Frames-pure tt)

Frames-pipe_fds : Frames pipe_fds
unfolding pipe_fds
Frames-pipe_fds = search framing

Frames-try_into_pipe : Frames try_into_pipe
unfolding try_into_pipe
Frames-try_into_pipe = search framing

Frames-registered : (pid : ℤ) (r : Result (Unit {0})) → Frames (registered_or_kill pid r)
unfolding registered_or_kill
Frames-registered pid (ok r) = Frames-pure pid
Frames-registered pid (err e) = search framing
Frames-registered pid panic = Frames-lift panic refl
Frames-registered pid hang = Frames-lift panic refl

Frames-new : (func : Action SyscallStatus) → Frames func → Frames (new func)
unfolding new
Frames-new func p = Frames-then _ _ Frames-pipe_fds (
    Frames-bind _ _ (Frames-c_try fork refl) λ child.
      Frames-then _ _ (Frames-child_main func p)
        (Frames-bind _ _ (Frames-attempt _ Frames-try_into_pipe) (Frames-registered child.res)))

wait_loop-Apart : (n : ℕ) (pid : ℤ) (k : Kernel) (h : History) → Apart h (wait_loop n pid k h).1
unfolding wait_loop
wait_loop-Apart zero pid k h = same
wait_loop-Apart (suc n) pid k h =
    let here = aside (waitpid pid) refl same in
    let rest = Apart-trans here (wait_loop-Apart n pid k (waitpid pid ∷ h)) in
    if-Apart h (eq_ℤ (k.reply h (waitpid pid)).res minus_one) _ _
      (if-Apart h (eq_ℤ (k.reply h (waitpid pid)).errno eintr) _ _ rest here)
      (if-Apart h (eq_ℤ (k.reply h (waitpid pid)).res pid) _ _ here rest)

-- It ends if the wait does not go on for as many rounds.
reaped :
    (n fuel : ℕ) (pid : ℤ) (k : Kernel) (h : History)
    → n < fuel
    → Reaps k pid n h
    → is_hang (wait_loop fuel pid k h).0 ≡ false
unfolding wait_loop
reaped n zero pid k h lt w = absurd (omega arith)
reaped zero (suc fuel) pid k h lt w = ground arith
reaped (suc n) (suc fuel) pid k h lt w = ground (
  arith,
  λ (v : Reaps k pid n (waitpid pid ∷ h)). reaped n fuel pid k (waitpid pid ∷ h) (omega arith) v,
)

Frames-wait : (pid : ℤ) → Frames (wait pid)
unfolding wait
Frames-wait pid =
    Frames-bind (λ k. wait_loop k.rounds pid k) _
      (record {
        run = λ k h. wait_loop-Apart k.rounds pid k h;
        returns = λ k h w.
            let (n, lt, some_end) = w.children pid h in reaped n k.rounds pid k h lt some_end;
      })
      λ status. search framing

Frames-get_result : Frames get_result
unfolding get_result
Frames-get_result = search framing

Frames-finish : (pid : ℤ) (r : Result SyscallStatus) → is_hang r ≡ false → Frames (finish pid r)
unfolding finish
Frames-finish pid (ok s) e = search (framing, Frames-wait)
Frames-finish pid (err x) e = search (framing, Frames-wait)
Frames-finish pid panic e = search (framing, Frames-wait)
Frames-finish pid hang e = cc

pub Frames-forking_syscall :
    (func : Action SyscallStatus) → Frames func → Frames (forking_syscall func)
unfolding forking_syscall
Frames-forking_syscall func p =
    Frames-bind _ _ (Frames-new func p)
      λ pid. Frames-attempted _ _ Frames-get_result (Frames-finish pid)
