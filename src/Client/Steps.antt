-- ===== src/Client/Steps.antt =====
-- The single steps of a conversation in src/client.rs: what is sent, and how it may end.
use pve_lxc_syscalld.Base.{
  ◌==◌, as_u32, le_value, drop, ℕ, ◌<◌, ◌≤◌, ◌^◌, ◌≡◌, refl, arith, pos, as_u64, minus_one, eq_ℤ,
  Bytes, length, length-take, length-append, [], ◌∷◌, take, true, false, Result, ok, err, panic,
  hang,
}
use pve_lxc_syscalld.Kernel.Laws.{close_all_drops}
use pve_lxc_syscalld.Kernel.{
  readable, writable, ◌>>◌, pure, shutdown, attempt, caught, Kernel, History, recvmsg, sendmsg,
  c_result,
}
use pve_lxc_syscalld.Io.Waiting.{attempts, BlocksFor, wrap_loop_returns}
use pve_lxc_syscalld.Io.SeqPacket
use pve_lxc_syscalld.Io.SeqPacket.{recvmsg_vectored, sendmsg_vectored}
use pve_lxc_syscalld.Seccomp.{SeccompNotifResp, encode_resp, resp_layout}
use pve_lxc_syscalld.Syscall.{SyscallStatus}
use pve_lxc_syscalld.LxcSeccomp.{
  reset_drops, iovec_size, scatter, reset, ProxyMessageBuffer, recv, respond,
}
use pve_lxc_syscalld.LxcSeccomp.Echo.{response, length-fields}
use pve_lxc_syscalld.Client.{status_or_error}
use pve_lxc_syscalld.Client.Answers.{emptied, answer, packet, arrived}

length-encode_resp : (r : SeccompNotifResp) → length (encode_resp r) ≡ 24
unfolding encode_resp
length-encode_resp r =
    length-fields resp_layout (r.id ∷ as_u64 r.val ∷ as_u32 r.error ∷ r.flags ∷ []) refl

pub length-answer :
    (received : Bytes) (s : SyscallStatus)
    → 112 ≤ length received
    → length (answer received s) ≡ 136
length-answer received s w =
    let r = response (le_value (take 8 (drop 32 received))) s in
    omega (
      arith,
      length-append (take 112 received) (encode_resp r),
      length-take 112 received,
      length-encode_resp r,
    )

pub respond_returns :
    (b : ProxyMessageBuffer) (content : Bytes) (n : ℕ) (k : Kernel) (h : History)
    → packet b ≡ content
    → length content < 2 ^ 63
    → n < k.rounds
    → BlocksFor k writable (sendmsg content) h n
    → (k.reply (attempts writable n (sendmsg content) h) (sendmsg content)).res
      ≡ pos (length content)
    → respond b k h ≡ (ok tt, sendmsg content ∷ attempts writable n (sendmsg content) h)
unfolding respond sendmsg_vectored c_result
respond_returns b content n k h q small lt bl r =
    rw (q, wrap_loop_returns n k.rounds writable (sendmsg content) k h lt bl) (ground (arith))

take_nil : (n : ℕ) (bs : Bytes) → bs ≡ [] → length (take n bs) == 0 ≡ true
take_nil n bs e = ground (arith, length-take n bs)

-- The client has hung up.
pub recv_closed :
    (b : ProxyMessageBuffer) (k : Kernel) (h : History) (n : ℕ)
    → n < k.rounds
    → BlocksFor k readable recvmsg (emptied b h) n
    → eq_ℤ (k.reply (attempts readable n recvmsg (emptied b h)) recvmsg).res minus_one ≡ false
    → (k.reply (attempts readable n recvmsg (emptied b h)) recvmsg).out ≡ []
    → recv b k h ≡ (
      ok (false, scatter (reset b) (arrived b n k (emptied b h))),
      recvmsg ∷ attempts readable n recvmsg (emptied b h),
    )
unfolding recv recvmsg_vectored c_result
recv_closed b k h n lt bl fine gone = rw (close_all_drops (reset_drops b) k h) (
    rw (wrap_loop_returns n k.rounds readable recvmsg k (emptied b h) lt bl) (
      rw
        (
          fine,
          take_nil (iovec_size b) (k.reply (attempts readable n recvmsg (emptied b h)) recvmsg).out
              gone,
        )
        refl))

-- An outcome with a number does not end the task.
pub caught_number :
    (outcome : Result SyscallStatus) (s : SyscallStatus) (h : History)
    → status_or_error outcome ≡ ok s
    → caught (outcome, h) ≡ (ok outcome, h)
unfolding status_or_error
caught_number (ok t) s h e = refl
caught_number (err x) s h e = refl
caught_number panic s h e = cc
caught_number hang s h e = cc

-- A socket is shut down, if that fails or not.
pub shut_down :
    (k : Kernel) (h : History)
    → ◌>>◌ {B = Unit {0}} (attempt SeqPacket.shutdown) (pure tt) k h ≡ (ok tt, shutdown ∷ h)
unfolding SeqPacket.shutdown
shut_down k h = ground arith
