-- ===== src/Ledger/Receiving.antt =====
-- What `recv` of src/lxcseccomp.rs does with the descriptors of a message.
use pve_lxc_syscalld.Base.{
  ℕ, ◌≡◌, refl, sym, ap, arith, ℤ, Bytes, List, [], ◌∷◌, length, take, Bool, true, false, some,
  Result, ok, err, panic, hang, Error, ◌⊎◌, inl, inr, ◌==◌, ◌≢◌, if◌then◌else◌,
}
use pve_lxc_syscalld.Kernel.{
  Kernel, History, Action, recvmsg, lift, owning, then_run, pure, dropped,
}
use pve_lxc_syscalld.Kernel.Laws.{close_all_drops, owning_ok}
use pve_lxc_syscalld.Process.PidFd.{PidFd, try_from_fd}
use pve_lxc_syscalld.Seccomp.{SeccompNotifSizes}
use pve_lxc_syscalld.LxcSeccomp.{
  ProxyMessageBuffer, iovec_size, scatter, reset, set_len, held, pid_held, mem_held, reset_drops,
  two_fds, fds_wrapped, accept_message, recv,
}
use pve_lxc_syscalld.LxcSeccomp.Length.{accepted, set_len_ok}
use pve_lxc_syscalld.Ledger.{rights_of, Balanced}
use pve_lxc_syscalld.Ledger.Balance.{Balanced-dropped, Balanced-swap}
use pve_lxc_syscalld.Ledger.Owned.{then_Post, owning-Kept, Ran, recvmsg_vectored-Arrived, Arrived}
use pve_lxc_syscalld.Client.Shape.{IsShaped, scatter-IsShaped, accepted-IsShaped}
use pve_lxc_syscalld.Ledger.Rules.{Apart-Same}
use pve_lxc_syscalld.Frame.Reads.{Frames-try_from_fd}
use pve_lxc_syscalld.Ledger.Wrapped.{two_fds-wrapped, try_from_fd_keeps}

-- The client has hung up.
abbrev pub IsEmpty : ProxyMessageBuffer → Bytes → Type 0
IsEmpty b received = length received ≡ 0

-- The packet is not one that `set_len` accepts.
abbrev pub IsRefused : ProxyMessageBuffer → Bytes → Type 0
IsRefused b received =
    (e : Error) × (set_len (scatter (reset b) received) (length received) ≡ err e)

-- The last call brought a message, of which this holds, and whose descriptors are those that are open.
pub record Lost (sizes : SeccompNotifSizes) (room : ℕ) (Why : ProxyMessageBuffer → Bytes → Type 0)
    (k : Kernel) (h : History) : Type 0 where
  pub buffer : ProxyMessageBuffer
  pub before : History
  pub shaped : IsShaped sizes room buffer
  pub last : h ≡ recvmsg ∷ before
  pub why : Why buffer (take (iovec_size buffer) (k.reply before recvmsg).out)
  pub left : Balanced k h (rights_of (k.reply before recvmsg))

set_len_ends : (b : ProxyMessageBuffer) (n : ℕ) → (set_len b n ≢ panic) × (set_len b n ≢ hang)
unfolding set_len
set_len_ends b n = ground arith

module _ (sizes : SeccompNotifSizes) (room : ℕ) (k : Kernel) where
  -- How `recv` leaves the descriptors.
  abbrev pub Taken : Result (Bool × ProxyMessageBuffer) × History → Type 0
  Taken (ok (true, b), h) = IsShaped sizes room b × Balanced k h (held b)
  Taken (ok (false, b), h) = Lost sizes room IsEmpty k h
  Taken (err e, h) = Balanced k h [] ⊎ Lost sizes room IsRefused k h
  Taken (panic, h) = Balanced k h []
  Taken (hang, h) = (fds : List ℤ) × Balanced k h fds

  Lost-received :
      (Why : ProxyMessageBuffer → Bytes → Type 0) (b : ProxyMessageBuffer) (h1 h2 : History)
      (received : Bytes)
      → IsShaped sizes room b
      → h2 ≡ recvmsg ∷ h1
      → received ≡ take (iovec_size b) (k.reply h1 recvmsg).out
      → Balanced k h2 (rights_of (k.reply h1 recvmsg))
      → Why b received
      → Lost sizes room Why k h2
  Lost-received Why b h1 h2 received s q e c why = record {
    buffer = b;
    before = h1;
    shaped = s;
    last = q;
    why = rw e at why;
    left = c;
  }

  -- Two descriptors are kept once the first is known to be that of a process.
  two_kept-Taken :
      (b1 : ProxyMessageBuffer) (p m : ℤ) (h : History)
      → ((proc : PidFd) → IsShaped sizes room (record b1 { pid_fd = some proc; mem_fd = some m }))
      → Balanced k h (p ∷ m ∷ [])
      → Taken (
          then_run
            (owning (p ∷ m ∷ []) (try_from_fd p) k h)
            (λ proc. pure (true, record b1 { pid_fd = some proc; mem_fd = some m }))
            k)
  two_kept-Taken b1 p m h s w =
      let own =
        owning-Kept k (p ∷ m ∷ []) (try_from_fd p) h (Apart-Same k ((Frames-try_from_fd p).run k h))
          w in
      then_Post (Ran k (p ∷ m ∷ []) (try_from_fd p) h) Taken k _ _ (refl, own)
        (λ proc h1 (e, w1).
          let same =
            try_from_fd_keeps p proc k h h1 (owning_ok (p ∷ m ∷ []) (try_from_fd p) k h (sym e)) in
          (s proc, rw same w1))
        (λ e h1 (_, w1). inl w1) (λ h1 (_, w1). w1) (λ h1 (_, w1). (p ∷ m ∷ [], w1))

  accept_message-Taken :
      (b : ProxyMessageBuffer) (received control : Bytes) (h : History)
      → IsShaped sizes room b
      → Balanced k h (fds_wrapped control)
      → (IsRefused b received → Lost sizes room IsRefused k h)
      → Taken (accept_message (scatter (reset b) received) received control k h)
  unfolding accept_message
  accept_message-Taken b received control h s w lost =
      let b' = scatter (reset b) received in
      let n = length received in
      then_Post (λ x. x ≡ (set_len b' n, h)) Taken k _ _ refl
        (λ b1 h1 e.
          let w1 : Balanced k h1 (fds_wrapped control) = rw (ap (λ x. x.1) e) w in
          let g : b1 ≡ accepted b' = set_len_ok b' b1 n (sym (ap (λ x. x.0) e)) in
          then_Post (Ran k (fds_wrapped control) (lift (two_fds control)) h1) Taken k _ _
            (
              refl,
              owning-Kept k (fds_wrapped control) (lift (two_fds control)) h1 (refl, refl, λ v. v)
                  w1,
            )
            (λ fds h2 (e2, w2).
              let two = two_fds-wrapped control fds.0 fds.1 (
                ap (λ x. x.0)
                  (owning_ok (fds_wrapped control) (lift (two_fds control)) k h1 (sym e2))) in
              two_kept-Taken b1 fds.0 fds.1 h2
                (λ proc. rw g (
                  accepted-IsShaped sizes room b' (some proc) (some (fds.1))
                    (scatter-IsShaped sizes room b received s)))
                (rw two at w2))
            (λ e2 h2 (_, w2). inl w2) (λ h2 (_, w2). w2) (λ h2 (_, w2). (fds_wrapped control, w2)))
        (λ e h1 q. inr (rw (ap (λ x. x.1) q) (lost (e, sym (ap (λ x. x.0) q)))))
        (λ h1 q. absurd ((set_len_ends b' n).0 (sym (ap (λ x. x.0) q))))
        (λ h1 q. absurd ((set_len_ends b' n).1 (sym (ap (λ x. x.0) q))))

  Taken-if :
      (t : Bool) (m n : Action (Bool × ProxyMessageBuffer)) (h : History)
      → (t ≡ true → Taken (m k h))
      → Taken (n k h)
      → Taken ((if t then m else n) k h)
  Taken-if true m n h p q = p refl
  Taken-if false m n h p q = q

  pub recv-Taken :
      (b : ProxyMessageBuffer) (h : History)
      → IsShaped sizes room b
      → Balanced k h (held b)
      → Taken (recv b k h)
  unfolding recv
  recv-Taken b h s w =
      let h0 = dropped (reset_drops b) h in
      let w0 : Balanced k h0 [] =
        Balanced-dropped k (reset_drops b) h
          (Balanced-swap k h (pid_held b.pid_fd) (mem_held b.mem_fd) w) in
      rw (close_all_drops (reset_drops b) k h) (
        then_Post (Arrived k (iovec_size b)) Taken k _ _
          (recvmsg_vectored-Arrived k (iovec_size b) h0 w0)
          (λ (received, control) h2 (h1, q, e, f, c).
            let lost = λ (Why : ProxyMessageBuffer → Bytes → Type 0) (why : Why b received).
              Lost-received Why b h1 h2 received s q e c why in
            Taken-if (length received == 0) _ _ h2 (λ empty. lost IsEmpty (ground arith))
              (accept_message-Taken b received control h2 s (rw f at c) (lost IsRefused)))
          (λ e h2 c. inl c) (λ h2 c. c) (λ h2 c. ([], c)))
