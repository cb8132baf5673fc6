-- ===== src/Client/Answers.antt =====
-- Messages and their answers, in `main_do` of src/client.rs.
use pve_lxc_syscalld.Base.{
  [], ◌∷◌, take-take, if◌then◌else◌, ◌==◌, ℕ, ◌<◌, ◌≤◌, ◌≡◌, refl, ap, ◌∙◌, arith, ℤ, Bytes, length,
  length-drop, All, IsByte, ◌++◌, take, drop, le_value, Bool, true, false, ok, some, words,
}
use pve_lxc_syscalld.Kernel.{dropped, readable, pure, lift, Kernel, History, recvmsg, c_result}
use pve_lxc_syscalld.Kernel.Laws.{close_all_drops, bind_ok}
use pve_lxc_syscalld.Io.Waiting.{attempts, BlocksFor, wrap_loop_returns}
use pve_lxc_syscalld.Io.Cmsg.{capacity}
use pve_lxc_syscalld.Io.SeqPacket.{recvmsg_vectored}
use pve_lxc_syscalld.Process.PidFd.{PidFd, try_from_fd}
use pve_lxc_syscalld.Seccomp.{notif_layout, encode_notif, decode_notif, encode_resp}
use pve_lxc_syscalld.Syscall.{SyscallStatus, done, failed}
use pve_lxc_syscalld.LxcSeccomp.{
  fds_wrapped, reset_drops, prepare_response, encode_proxy_msg, ProxyMessageBuffer, reset, scatter,
  set_len, two_fds, accept_message, recv, iovec_size,
}
use pve_lxc_syscalld.LxcSeccomp.Echo.{answer_echoes, response, overwrite_all, length-fields}
use pve_lxc_syscalld.LxcSeccomp.Length.{set_len_ok}
use pve_lxc_syscalld.Client.{owning, set_response}

-- The first 112 bytes of a packet, and the response to the id at its byte 32.
abbrev pub answer : Bytes → SyscallStatus → Bytes
answer received s =
    take 112 received ++ encode_resp (response (le_value (take 8 (drop 32 received))) s)

abbrev pub HasSix : ProxyMessageBuffer → Type 0
HasSix b = length b.seccomp_notif.call.args ≡ 6

-- What a message was accepted as.
abbrev pub TakenAs : ProxyMessageBuffer → Bytes → ProxyMessageBuffer → Type 0
TakenAs b received taken =
    (b1 : ProxyMessageBuffer) × (p : PidFd) × (fd : ℤ) × (set_len (scatter (reset b) received)
        (length received)
      ≡ ok b1)
    × (taken ≡ record b1 { pid_fd = some p; mem_fd = some fd })

pub accept_message_taken :
    (b taken : ProxyMessageBuffer) (received control : Bytes) (k : Kernel) (h h2 : History)
    → accept_message (scatter (reset b) received) received control k h ≡ (ok (true, taken), h2)
    → TakenAs b received taken
unfolding accept_message
accept_message_taken b taken received control k h h2 e =
    let (b1, h1, e1, f1) =
      bind_ok (lift (set_len (scatter (reset b) received) (length received))) _ k h e in
    let (fds, h3, e2, f2) =
      bind_ok (owning (fds_wrapped control) (lift (two_fds control))) _ k h1 f1 in
    let (p, h4, e3, f3) = bind_ok (owning (fds.0 ∷ fds.1 ∷ []) (try_from_fd fds.0)) _ k h3 f2 in
    (b1, p, fds.1, ap (λ x. x.0) e1, ground arith)

-- When `recv` begins to wait: the descriptors of the last message are closed.
abbrev pub emptied : ProxyMessageBuffer → History → History
emptied b h = dropped (reset_drops b) h

-- The bytes of the message that the kernel has after `n` attempts, as much as the buffer holds.
abbrev pub arrived : ProxyMessageBuffer → ℕ → Kernel → History → Bytes
arrived b n k h = take (iovec_size b) (k.reply (attempts readable n recvmsg h) recvmsg).out

-- What `recv` took for a message.
module _ (b taken : ProxyMessageBuffer) (n : ℕ) (k : Kernel) (h h2 : History) where
  recvmsg_arrived :
      (received control : Bytes) (room : ℕ) (h1 : History)
      → n < k.rounds
      → BlocksFor k readable recvmsg h n
      → recvmsg_vectored (iovec_size b) room k h ≡ (ok (received, control), h1)
      → received ≡ (arrived b n k h)
  unfolding recvmsg_vectored c_result
  recvmsg_arrived received control room h1 lt bl e =
      let e' = rw (wrap_loop_returns n k.rounds readable recvmsg k h lt bl) at e in
      ground (arith, e')

  accepted_by :
      (received control : Bytes) (h1 : History)
      → received ≡ arrived b n k h
      → (empty : Bool)
      → (if empty
            then pure (false, scatter (reset b) received)
            else accept_message (scatter (reset b) received) received control)
          k h1
        ≡ (ok (true, taken), h2)
      → TakenAs b (arrived b n k h) taken
  accepted_by received control h1 q true f = absurd (ground arith)
  accepted_by received control h1 q false f =
      rw q at (accept_message_taken b taken received control k h1 h2 f)

module _ (b taken : ProxyMessageBuffer) (n : ℕ) (k : Kernel) (h h2 : History) where
  pub recv_taken :
      n < k.rounds
      → BlocksFor k readable recvmsg (emptied b h) n
      → recv b k h ≡ (ok (true, taken), h2)
      → TakenAs b (arrived b n k (emptied b h)) taken
  unfolding recv
  recv_taken lt bl e =
      let h0 = emptied b h in
      let e0 = rw (close_all_drops (reset_drops b) k h) at e in
      let ((received, control), h3, e3, f3) =
        bind_ok (recvmsg_vectored (iovec_size b) (capacity 8)) _ k h0 e0 in
      accepted_by b taken n k h0 h2 received control h3
        (recvmsg_arrived b taken n k h0 h2 received control (capacity 8) h3 lt bl e3)
        (length received == 0) f3

-- The message that `respond` sends.
abbrev pub packet : ProxyMessageBuffer → Bytes
packet b =
    encode_proxy_msg b.proxy_msg ++ encode_notif b.seccomp_notif ++ encode_resp b.seccomp_resp

packet_same :
    (b : ProxyMessageBuffer) (p : PidFd) (fd : ℤ) (s : SyscallStatus)
    → packet (set_response (record b { pid_fd = some p; mem_fd = some fd }) s)
      ≡ packet (set_response b s)
unfolding set_response
packet_same b p fd (done v) = refl
packet_same b p fd (failed e) = refl

id_received :
    (b : ProxyMessageBuffer) (received : Bytes)
    → 112 ≤ length received
    → HasSix b
    → (scatter b received).seccomp_notif.id ≡ le_value (take 8 (drop 32 received))
unfolding scatter decode_notif encode_notif words
id_received b received w x =
    let rest = drop 32 received in
    let room : 80 ≤ length rest = omega (arith, length-drop 32 received) in
    ap (λ t. le_value (take 8 t))
      (overwrite_all 80 rest (encode_notif b.seccomp_notif)
        (length-fields notif_layout _ (omega arith)) room)
    ∙ ap le_value (take-take 8 80 rest (omega arith))

-- What the memory of a taken message says.
module _ (b taken : ProxyMessageBuffer) (received : Bytes) where
  pub taken_echoes :
      (s : SyscallStatus)
      → 112 ≤ length received
      → All IsByte received
      → HasSix b
      → TakenAs b received taken
      → packet (set_response taken s) ≡ answer received s
  unfolding reset
  taken_echoes s w by x (b1, p, fd, e, q) = rw q (
      packet_same b1 p fd s
      ∙ answer_echoes (reset b) b1 received s w by x e
      ∙ ap (λ i. take 112 received ++ encode_resp (response i s))
          (id_received (reset b) received w x))

  pub taken_HasSix : TakenAs b received taken → HasSix taken
  unfolding scatter decode_notif words prepare_response
  taken_HasSix (b1, p, fd, e, q) =
      rw q (rw (set_len_ok (scatter (reset b) received) b1 (length received) e) refl)
