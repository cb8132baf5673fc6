-- ===== src/Guard/Forks.antt =====
-- `Keeps` for src/fork.rs, of the child and the daemon together.
use pve_lxc_syscalld.Tools.{set_fd_nonblocking, known_flags, with_nonblock}
use pve_lxc_syscalld.Base.{
  as_u32, expect_ok, unwrap, ℕ, zero, suc, ℤ, pos, minus_one, eq_ℤ, Bool, true, false, ◌∷◌, Option,
  none, some, Result, ok, err, panic, hang, io_kind, kind_other, unexpected_eof, ltb, length, take,
  arith, refl, ◌≡◌,
}
use pve_lxc_syscalld.Kernel.{
  ◌>>=◌, Reply, c_try, c_result, get_status_flags, set_status_flags, Action, Kernel, History, ◌>>◌,
  then_run, caught, pure, pipe, fork, exit, register_pipe, read_pipe, kill, waitpid,
}
use pve_lxc_syscalld.Syscall.{SyscallStatus}
use pve_lxc_syscalld.SysMknod.{DevNumbers}
use pve_lxc_syscalld.Fork.{
  Packet, encode_packet, packet_of, send_packet, send_or_panic, run_and_send, exit_with,
  registered_or_kill, child_body, child_main, new, wait_loop, wait, get_result, status_of,
  decode_packet, finish, forking_syscall,
}
use pve_lxc_syscalld.Io.Pipe.{pipe_fds, try_into_pipe}
use pve_lxc_syscalld.Guard.{in_child, Within, After, Keeps}
use pve_lxc_syscalld.Guard.Rules.{
  Keeps-nix_try, keeps_result, After-bind, Keeps-lift, Keeps-pure, Keeps-bind, Keeps-then,
  Keeps-attempt, Keeps-if, Keeps-call, Keeps-c_try, Allows,
}
use pve_lxc_syscalld.Guard.Child.{Allows-write_pipe}

module _ (d : DevNumbers) (k : Kernel) where
  Keeps-send_packet : (p : Packet) → Keeps d k true (send_packet p)
  unfolding send_packet
  Keeps-send_packet p =
      Keeps-bind d k true _ _
        (Keeps-attempt d k true _
          (Keeps-c_try d k true _ (Allows-write_pipe d k (encode_packet p))))
        elim [
          | ok r ↦ Keeps-pure d k true (pos 0)
          | err e ↦ Keeps-pure d k true (pos 1)
          | panic ↦ Keeps-pure d k true (pos 1)
          | hang ↦ Keeps-pure d k true (pos 1)
        ]

  -- What the child does once its pipe blocks.
  Keeps-run :
      (func : Action SyscallStatus) → Keeps d k true func → Keeps d k true (run_and_send func)
  unfolding run_and_send
  Keeps-run func p =
      Keeps-bind d k true _ _ (Keeps-attempt d k true func p) (λ out. sent (packet_of out))
    where
      sent : (o : Option Packet) → Keeps d k true (send_or_panic o)
      sent none = Keeps-lift d k true panic
      sent (some p) = Keeps-send_packet p

  Allows-set_status_flags : (flags : ℕ) → Allows d k true (set_status_flags flags)
  Allows-set_status_flags flags h w = ((w.1, w.0), w.1)

  Keeps-known_flags : (bits : ℕ) → Keeps d k true (known_flags bits)
  Keeps-known_flags bits = record {
    run = λ h w. keeps_result d k true (unwrap (k.flags_from_bits bits)) h w;
  }

  Allows-get_status_flags : Allows d k true get_status_flags
  Allows-get_status_flags h w = ((w.1, w.0), w.1)

  Keeps-set_fd_nonblocking : (on : Bool) → Keeps d k true (set_fd_nonblocking on)
  unfolding set_fd_nonblocking
  Keeps-set_fd_nonblocking on =
      Keeps-bind d k true _ _ (Keeps-nix_try d k true _ Allows-get_status_flags) λ got.
        Keeps-bind d k true _ _ (Keeps-known_flags (as_u32 got.res)) λ flags.
          Keeps-bind d k true _ _
            (Keeps-nix_try d k true _ (Allows-set_status_flags (with_nonblock on flags)))
            λ r. Keeps-pure d k true (r.res)

  Keeps-child_body :
      (func : Action SyscallStatus) → Keeps d k true func → Keeps d k true (child_body func)
  unfolding child_body
  Keeps-child_body func p =
      Keeps-bind d k true _ _ (Keeps-attempt d k true _ (Keeps-set_fd_nonblocking false))
        λ blocking.
          Keeps-then d k true _ _ (Keeps-lift d k true (expect_ok blocking)) (Keeps-run func p)

  allows_exit : (s : ℤ) (h : History) → Within d k true h → Within d k false (exit s ∷ h)
  allows_exit s h w = ((w.1, w.0), refl)

  -- The whole child, from where it is forked to its exit.
  child_main_moves :
      (func : Action SyscallStatus)
      → Keeps d k true func
      → (h : History) → Within d k true h
      → After d k false (child_main func k h)
  unfolding child_main
  child_main_moves func p h w = ended (child_body func k h) ((Keeps-child_body func p).run h w)
    where
      ended :
          (x : Result ℤ × History)
          → After {0} d k true x
          → After {0} d k false (then_run (caught x) (λ status. exit_with status >> pure tt) k)
      ended (ok s, h) w = allows_exit s h w
      ended (err e, h) w = allows_exit minus_one h w
      ended (panic, h) w = allows_exit minus_one h w
      ended (hang, h) w = w

  Allows-pipe : Allows d k false pipe
  Allows-pipe h w = ((tt, w.0), w.1)

  -- A fork that succeeds begins a child; after one that fails there is none.
  forked {ℓ} :
      {A : Type ℓ} (next : Reply → Action A) (h : History)
      → Within d k false h
      → ((r : Reply) (h1 : History) → Within d k true h1 → After d k false (next r k h1))
      → After d k false ((c_try fork >>= next) k h)
  unfolding c_result
  forked next h w p = branch (eq_ℤ (k.reply h fork).res minus_one) refl
    where
      branch :
          (t : Bool)
          → eq_ℤ (k.reply h fork).res minus_one ≡ t
          → After d k false ((c_try fork >>= next) k h)
      branch true q =
          let out : in_child k (fork ∷ h) ≡ false = ground (arith, q, w.1) in rw q ((w.1, w.0), out)
      branch false q =
          let inside : in_child k (fork ∷ h) ≡ true = ground (arith, q) in
          rw q (p (k.reply h fork) (fork ∷ h) ((w.1, w.0), inside))

  Allows-register_pipe : Allows d k false register_pipe
  Allows-register_pipe h w = ((tt, w.0), w.1)

  Allows-read_pipe : (n : ℕ) → Allows d k false (read_pipe n)
  Allows-read_pipe n h w = ((tt, w.0), w.1)

  Allows-kill : (pid : ℤ) (s : ℕ) → Allows d k false (kill pid s)
  Allows-kill pid s h w = ((w.1, w.0), w.1)

  Allows-waitpid : (pid : ℤ) → Allows d k false (waitpid pid)
  Allows-waitpid pid h w = ((w.1, w.0), w.1)

  Keeps-pipe_fds : Keeps d k false pipe_fds
  unfolding pipe_fds
  Keeps-pipe_fds =
      Keeps-then d k false _ _ (Keeps-c_try d k false pipe Allows-pipe) (Keeps-pure d k false tt)

  Keeps-try_into_pipe : Keeps d k false try_into_pipe
  unfolding try_into_pipe
  Keeps-try_into_pipe =
      Keeps-then d k false _ _ (Keeps-c_try d k false register_pipe Allows-register_pipe)
        (Keeps-pure d k false tt)

  Keeps-registered : (pid : ℤ) (r : Result (Unit {0})) → Keeps d k false (registered_or_kill pid r)
  unfolding registered_or_kill
  Keeps-registered pid (ok r) = Keeps-pure d k false pid
  Keeps-registered pid (err e) =
      Keeps-then d k false _ _ (Keeps-call d k false _ (Allows-kill pid 9))
        (Keeps-lift d k false (err e))
  Keeps-registered pid panic = Keeps-lift d k false panic
  Keeps-registered pid hang = Keeps-lift d k false panic

  Keeps-new : (func : Action SyscallStatus) → Keeps d k true func → Keeps d k false (new func)
  unfolding new
  Keeps-new func p = Keeps-then d k false _ _ Keeps-pipe_fds record {
    run = λ h w. forked _ h w λ child h1 v.
        After-bind d k false (child_main func k h1) _ (child_main_moves func p h1 v) λ u.
          Keeps-bind d k false _ _ (Keeps-attempt d k false _ Keeps-try_into_pipe)
            (Keeps-registered child.res);
  }

  wait_loop-After :
      (n : ℕ) (pid : ℤ) (h : History) → Within d k false h → After d k false (wait_loop n pid k h)
  unfolding wait_loop
  wait_loop-After zero pid h w = w.0
  wait_loop-After (suc n) pid h w =
      let w' = Allows-waitpid pid h w in
      let ih = wait_loop-After n pid (waitpid pid ∷ h) w' in ground (arith, w', ih)

  Keeps-wait : (pid : ℤ) → Keeps d k false (wait pid)
  unfolding wait
  Keeps-wait pid =
      Keeps-bind d k false (λ k. wait_loop k.rounds pid k) _
        (record { run = λ h w. wait_loop-After k.rounds pid h w })
        λ status.
          Keeps-if d k false (eq_ℤ status (pos 0)) _ _ (Keeps-pure d k false tt)
            (Keeps-lift d k false (err (io_kind kind_other)))

  Keeps-get_result : Keeps d k false get_result
  unfolding get_result
  Keeps-get_result =
      Keeps-bind d k false _ _ (Keeps-c_try d k false (read_pipe 16) (Allows-read_pipe 16)) λ r.
        Keeps-if d k false (ltb (length r.out) 16) _ _
          (Keeps-lift d k false (err (io_kind unexpected_eof)))
          (Keeps-lift d k false (status_of (decode_packet (take 16 r.out))))

  Keeps-finish : (pid : ℤ) (r : Result SyscallStatus) → Keeps d k false (finish pid r)
  unfolding finish
  Keeps-finish pid (ok s) = Keeps-then d k false _ _ (Keeps-wait pid) (Keeps-pure d k false s)
  Keeps-finish pid (err e) =
      Keeps-then d k false _ _ (Keeps-attempt d k false _ (Keeps-wait pid))
        (Keeps-lift d k false (err e))
  Keeps-finish pid panic =
      Keeps-then d k false _ _ (Keeps-attempt d k false _ (Keeps-wait pid))
        (Keeps-lift d k false panic)
  Keeps-finish pid hang =
      Keeps-then d k false _ _ (Keeps-attempt d k false _ (Keeps-wait pid))
        (Keeps-lift d k false hang)

  pub Keeps-forking_syscall :
      (func : Action SyscallStatus) → Keeps d k true func → Keeps d k false (forking_syscall func)
  unfolding forking_syscall
  Keeps-forking_syscall func p = Keeps-bind d k false _ _ (Keeps-new func p) λ pid.
      Keeps-bind d k false _ _ (Keeps-attempt d k false _ Keeps-get_result) (Keeps-finish pid)
