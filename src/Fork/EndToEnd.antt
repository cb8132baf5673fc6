-- ===== src/Fork/EndToEnd.antt =====
-- `forking_syscall` of src/fork.rs as a whole, on a kernel whose pipe hands on what is written into it.
use pve_lxc_syscalld.Tools.{with_nonblock, set_fd_nonblocking}
use pve_lxc_syscalld.Tools.Flags.{set_fd_nonblocking_lem}
use pve_lxc_syscalld.Base.{
  ◌^◌, os, nix, io_kind, message, ◌≢◌, take_all, ltb, ℕ, ◌<◌, ℤ, pos, minus_one, eq_ℤ, ◌∷◌, take,
  length, some, Result, ok, err, panic, hang, ◌≡◌, false, refl, sym, ap, ◌∙◌, arith,
}
use pve_lxc_syscalld.Kernel.{
  set_status_flags, get_status_flags, then_run, caught, Action, Kernel, History, Reply, pipe, fork,
  write_pipe, exit, register_pipe, read_pipe, waitpid, c_result,
}
use pve_lxc_syscalld.Io.Waiting.{again}
use pve_lxc_syscalld.Syscall.{SyscallStatus}
use pve_lxc_syscalld.Fork.{
  Packet, encode_packet, decode_packet, packet_of, status_of, send_packet, send_or_panic,
  run_and_send, child_body, child_main, registered_or_kill, new, wait, get_result, finish,
  forking_syscall,
}
use pve_lxc_syscalld.Fork.Transport.{
  IsOutcome, received, reported, received-eq-reported, length-encode_packet,
}
use pve_lxc_syscalld.Fork.Waiting.{EndsAfter, wait_loop_returns}

abbrev pub IsFine : Reply → Type 0
IsFine r = eq_ℤ r.res minus_one ≡ false

-- The moments of a call: the child's start, its end, and the parent with the pipe's content.
abbrev pub forked : History → History
forked h = fork ∷ pipe ∷ h

abbrev pub started : ℕ → History → History
started flags h = set_status_flags (with_nonblock false flags) ∷ get_status_flags ∷ forked h

abbrev pub ended : Packet → History → History
ended p h3 = exit (pos 0) ∷ write_pipe (encode_packet p) ∷ h3

abbrev pub read : Packet → History → History
read p h3 = read_pipe 16 ∷ register_pipe ∷ ended p h3

-- There is a pipe, and a child with this pid.
pub record Forks (k : Kernel) (h : History) (pid : ℤ) : Type 0 where
  pub piped : IsFine (k.reply h pipe)
  pub forks : (k.reply (pipe ∷ h) fork).res ≡ pid
  pub is_pid : eq_ℤ pid minus_one ≡ false

-- The child's end of the pipe can be made blocking.
pub record Blocks (k : Kernel) (h : History) (flags : ℕ) : Type 0 where
  pub flags_read : (k.reply (forked h) get_status_flags).res ≡ pos flags
  pub flags_fit : flags < 2 ^ 31
  pub flags_known : k.flags_from_bits flags ≡ some flags
  pub blocks :
      IsFine (k.reply (get_status_flags ∷ forked h) (set_status_flags (with_nonblock false flags)))

pub unblocked :
    (k : Kernel) (h : History) (flags : ℕ)
    → Blocks k h flags
    → set_fd_nonblocking false k (forked h) ≡ (
      ok (k.reply (get_status_flags ∷ forked h) (set_status_flags (with_nonblock false flags))).res,
      started flags h,
    )
unblocked k h flags w =
    (set_fd_nonblocking_lem false flags (with_nonblock false flags) k (forked h) w.flags_read
      w.flags_fit w.flags_known refl w.blocks).0

-- The calls around the child's work succeed, what is read is what the child wrote, and the child's end is
-- reported after `n` other events, with status 0.
pub record Relays (k : Kernel) (h : History) (pid : ℤ) (p : Packet) (h3 : History) (n flags : ℕ)
    : Type 0 where
  pub forks : Forks k h pid
  pub blocks : Blocks k h flags
  pub written : IsFine (k.reply h3 (write_pipe (encode_packet p)))
  pub registered : IsFine (k.reply (ended p h3) register_pipe)
  pub readable : IsFine (k.reply (register_pipe ∷ ended p h3) (read_pipe 16))
  pub content : (k.reply (register_pipe ∷ ended p h3) (read_pipe 16)).out ≡ encode_packet p
  pub in_time : n < k.rounds
  pub ends : EndsAfter k pid (read p h3) n
  pub succeeds : (k.reply (again n (waitpid pid) (read p h3)) (waitpid pid)).status ≡ pos 0

reported_ends : (r : Result SyscallStatus) → (reported r ≢ some panic) × (reported r ≢ some hang)
reported_ends (ok s) = ground arith
reported_ends (err (os e)) = ground arith
reported_ends (err (nix e)) = ground arith
reported_ends (err (io_kind e)) = ground arith
reported_ends (err message) = ground arith
reported_ends panic = ground arith
reported_ends hang = ground arith

-- An outcome that is sent is one that `catch_unwind` let through.
sends_caught :
    (r : Result SyscallStatus) (p : Packet) (h : History)
    → packet_of r ≡ some p
    → caught (r, h) ≡ (ok r, h)
unfolding packet_of
sends_caught (ok s) p h q = refl
sends_caught (err e) p h q = refl
sends_caught panic p h q = cc
sends_caught hang p h q = cc

-- What is read of the bytes of a packet that was sent.
read_back :
    (r x : Result SyscallStatus) (p : Packet)
    → IsOutcome r
    → packet_of r ≡ some p
    → reported r ≡ some x
    → status_of (decode_packet (take 16 (encode_packet p))) ≡ x
read_back r x p o q y =
    let whole : take 16 (encode_packet p) ≡ encode_packet p =
      ap (λ j. take j (encode_packet p)) (sym (length-encode_packet p))
      ∙ take_all (encode_packet p) in
    let same : received r ≡ some (status_of (decode_packet (encode_packet p))) =
      rw (q, received) refl in
    ap (λ b. status_of (decode_packet b)) whole
    ∙ ground (arith, sym same ∙ (received-eq-reported r o ∙ y))

module _ (func : Action SyscallStatus) (k : Kernel) (h : History) (pid : ℤ) (p : Packet)
    (h3 : History) (n flags : ℕ) where
  child_main_ends :
      (r : Result SyscallStatus)
      → Relays k h pid p h3 n flags
      → func k (started flags h) ≡ (r, h3)
      → packet_of r ≡ some p
      → child_main func k (forked h) ≡ (ok tt, ended p h3)
  unfolding child_main child_body run_and_send send_or_panic send_packet c_result
  child_main_ends r w e q =
      rw (unblocked k h flags w.blocks, e, sends_caught r p h3 q, q) (rw w.written refl)

  new_returns :
      (r : Result SyscallStatus)
      → Relays k h pid p h3 n flags
      → func k (started flags h) ≡ (r, h3)
      → packet_of r ≡ some p
      → new func k h ≡ (ok pid, register_pipe ∷ ended p h3)
  unfolding new registered_or_kill c_result
  new_returns r w e q =
      rw w.forks.piped
        (rw (w.forks.forks, w.forks.is_pid) (rw (child_main_ends r w e q) (rw w.registered refl)))

  get_result_returns :
      (r x : Result SyscallStatus)
      → Relays k h pid p h3 n flags
      → IsOutcome r
      → packet_of r ≡ some p
      → reported r ≡ some x
      → get_result k (register_pipe ∷ ended p h3) ≡ (x, read p h3)
  unfolding get_result c_result
  get_result_returns r x w o q y =
      let long : ltb (length (encode_packet p)) 16 ≡ false = rw (length-encode_packet p) refl in
      rw w.readable (rw (w.content, long) (rw (read_back r x p o q y) refl))

  wait_returns :
      Relays k h pid p h3 n flags
      → wait pid k (read p h3) ≡ (ok tt, waitpid pid ∷ again n (waitpid pid) (read p h3))
  unfolding wait
  wait_returns w =
      rw (wait_loop_returns n k.rounds pid k (read p h3) w.in_time w.ends) (rw w.succeeds refl)

  finished :
      (r x : Result SyscallStatus)
      → Relays k h pid p h3 n flags
      → reported r ≡ some x
      → then_run (caught (x, read p h3)) (λ result. finish pid result) k
        ≡ (x, waitpid pid ∷ again n (waitpid pid) (read p h3))
  unfolding finish
  finished r (ok s) w y = rw (wait_returns w) refl
  finished r (err s) w y = rw (wait_returns w) refl
  finished r panic w y = absurd ((reported_ends r).0 y)
  finished r hang w y = absurd ((reported_ends r).1 y)

  -- If the calls around it succeed and the pipe hands on what is written into it, a system call that is
  -- made in a child comes out in the parent as what the child came to, with `EFAULT` for an error without
  -- a number, and after the child was waited for. The numbers of the outcome have to fit the packet, and an
  -- errno must not be 0.
  pub forking_syscall-Relays :
      (r x : Result SyscallStatus)
      → Relays k h pid p h3 n flags
      → func k (started flags h) ≡ (r, h3)
      → IsOutcome r
      → packet_of r ≡ some p
      → reported r ≡ some x
      → forking_syscall func k h ≡ (x, waitpid pid ∷ again n (waitpid pid) (read p h3))
  unfolding forking_syscall finish
  forking_syscall-Relays r x w e o q y =
      rw (new_returns r w e q, get_result_returns r x w o q y) (finished r x w y)
