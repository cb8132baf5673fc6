-- ===== src/Client/Dialogue.antt =====
-- What src/client.rs sends, whatever the kernel replies.
use pve_lxc_syscalld.Base.{
  ℕ, ◌≡◌, sym, ap, ◌∙◌, arith, Bytes, [], ◌∷◌, length, take, Bool, true, false, minus_one, eq_ℤ, ok,
  if◌then◌else◌, ◌==◌,
}
use pve_lxc_syscalld.Kernel.{Kernel, History, recvmsg, readable, lift, pure, owning, dropped}
use pve_lxc_syscalld.Kernel.Laws.{bind_ok, owning_ok, close_all_drops}
use pve_lxc_syscalld.Io.{wrap_read}
use pve_lxc_syscalld.Io.Waiting.{EndsOn, wrap_loop-EndsOn}
use pve_lxc_syscalld.Io.Cmsg.{capacity}
use pve_lxc_syscalld.Io.SeqPacket.{recvmsg_vectored}
use pve_lxc_syscalld.Process.PidFd.{try_from_fd}
use pve_lxc_syscalld.LxcSeccomp.{
  ProxyMessageBuffer, iovec_size, scatter, reset, set_len, reset_drops, two_fds, fds_wrapped,
  accept_message, recv,
}
use pve_lxc_syscalld.Client.Answers.{TakenAs, accept_message_taken}
use pve_lxc_syscalld.Frame.{Apart}
use pve_lxc_syscalld.Frame.Rules.{Apart-along}
use pve_lxc_syscalld.Frame.Reads.{Frames-try_from_fd}

module _ (b : ProxyMessageBuffer) (k : Kernel) where
  -- A message was taken: it was received by the last call but for the reading of its process.
  abbrev pub Receives : ProxyMessageBuffer → History → Type 0
  Receives taken h =
      (received : Bytes) × (h1 : History) × (eq_ℤ (k.reply h1 recvmsg).res minus_one ≡ false)
      × (received ≡ take (iovec_size b) (k.reply h1 recvmsg).out)
      × Apart (recvmsg ∷ h1) h
      × TakenAs b received taken

  accept_message-Apart :
      (b' : ProxyMessageBuffer) (received control : Bytes) (h h' : History)
      (x : Bool × ProxyMessageBuffer)
      → accept_message b' received control k h ≡ (ok x, h')
      → Apart h h'
  unfolding accept_message
  accept_message-Apart b' received control h h' x e =
      let (b1, h1, e1, f1) = bind_ok (lift (set_len b' (length received))) _ k h e in
      let (fds, h2, e2, f2) =
        bind_ok (owning (fds_wrapped control) (lift (two_fds control))) _ k h1 f1 in
      let (p, h3, e3, f3) = bind_ok (owning (fds.0 ∷ fds.1 ∷ []) (try_from_fd fds.0)) _ k h2 f2 in
      let chosen = owning_ok (fds_wrapped control) (lift (two_fds control)) k h1 e2 in
      let read = owning_ok (fds.0 ∷ fds.1 ∷ []) (try_from_fd fds.0) k h2 e3 in
      let begun = ap (λ y. y.1) e1 ∙ ap (λ y. y.1) chosen in
      Apart-along begun ((Frames-try_from_fd fds.0).run k h2)
        (ap (λ y. y.1) read ∙ ap (λ y. y.1) f3)

  recvmsg_vectored-ends :
      (room cmsg_room : ℕ) (h h' : History) (received control : Bytes)
      → recvmsg_vectored room cmsg_room k h ≡ (ok (received, control), h')
      → (h1 : History) × (h' ≡ recvmsg ∷ h1)
        × (eq_ℤ (k.reply h1 recvmsg).res minus_one ≡ false)
        × (received ≡ take room (k.reply h1 recvmsg).out)
  unfolding recvmsg_vectored wrap_read
  recvmsg_vectored-ends room cmsg_room h h' received control e =
      let (r, h2, e2, f2) = bind_ok (wrap_read recvmsg) _ k h e in
      let last : EndsOn k recvmsg (ok r, h2) =
        rw e2 at (wrap_loop-EndsOn k readable recvmsg k.rounds h) in
      let (h1, q, same_reply, fine) = last in
      (h1, ap (λ y. y.1) (sym f2) ∙ q, rw same_reply at fine, ground (arith, f2, same_reply))

  accepted_by :
      (received control : Bytes) (h h' : History) (taken : ProxyMessageBuffer) (empty : Bool)
      → (if empty
            then pure (false, scatter (reset b) received)
            else accept_message (scatter (reset b) received) received control)
          k h
        ≡ (ok (true, taken), h')
      → Apart h h' × TakenAs b received taken
  accepted_by received control h h' taken true e = absurd (ground (arith, e))
  accepted_by received control h h' taken false e = (
    accept_message-Apart (scatter (reset b) received) received control h h' (true, taken) e,
    accept_message_taken b taken received control k h h' e,
  )

  pub recv-Receives :
      (h h' : History) (taken : ProxyMessageBuffer)
      → recv b k h ≡ (ok (true, taken), h')
      → Receives taken h'
  unfolding recv
  recv-Receives h h' taken e =
      let e0 = rw (close_all_drops (reset_drops b) k h) at e in
      let ((received, control), h3, e3, f3) =
        bind_ok (recvmsg_vectored (iovec_size b) (capacity 8)) _ k (dropped (reset_drops b) h) e0 in
      let (h1, q, fine, bytes) =
        recvmsg_vectored-ends (iovec_size b) (capacity 8) _ h3 received control e3 in
      let (made, how) = accepted_by received control h3 h' taken (length received == 0) f3 in
      (received, h1, fine, bytes, rw q at made, how)
