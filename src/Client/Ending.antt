-- ===== src/Client/Ending.antt =====
-- When the task of a client in src/client.rs comes to an outcome.
use pve_lxc_syscalld.Base.{
  ℕ, zero, suc, ◌≡◌, refl, ◌⊎◌, inl, inr, arith, is_hang, true, false, Bool, Bytes, Result, ok, err,
  panic, hang, if◌then◌else◌,
}
use pve_lxc_syscalld.Kernel.{
  Kernel, History, writable, sendmsg, then_run, caught, owning, ◌>>=◌, ◌>>◌, pure,
}
use pve_lxc_syscalld.Kernel.Laws.{owning_ok}
use pve_lxc_syscalld.Io.{wrap_loop, wrap_write}
use pve_lxc_syscalld.Io.SeqPacket.{sendmsg_vectored}
use pve_lxc_syscalld.Seccomp.{SeccompNotifSizes}
use pve_lxc_syscalld.Syscall.{SyscallStatus}
use pve_lxc_syscalld.SysMknod.{DevNumbers}
use pve_lxc_syscalld.LxcSeccomp
use pve_lxc_syscalld.LxcSeccomp.{ProxyMessageBuffer, held, recv, respond}
use pve_lxc_syscalld.Client.{
  status_or_error, set_response, handle_syscall_do, handle_syscall, serve, main_do, wrap_error,
  main,
}
use pve_lxc_syscalld.Client.Answers.{packet}
use pve_lxc_syscalld.Client.Mute.{IsMute-recv, left_returns, passed}
use pve_lxc_syscalld.Client.Steps.{shut_down}
use pve_lxc_syscalld.Frame.{IsFair}
use pve_lxc_syscalld.Frame.Dispatch.{Frames-handle_syscall_do}
use pve_lxc_syscalld.Frame.Rules.{then_returns}

-- So many messages are received in turn, and each is handled and answered.
pub data Takes (d : DevNumbers) (k : Kernel) : ℕ → ProxyMessageBuffer → History → Type 0 where
  stop : {msg : ProxyMessageBuffer} {h : History} → Takes d k zero msg h
  takes :
      {n : ℕ} {msg taken answered : ProxyMessageBuffer} {h h1 h2 : History}
      → recv msg k h ≡ (ok (true, taken), h1)
      → handle_syscall d taken k h1 ≡ (ok answered, h2)
      → Takes d k n answered h2
      → Takes d k (suc n) msg h

module _ (k : Kernel) (fair : IsFair k) where
  sendmsg_vectored_returns :
      (content : Bytes) (h : History) → is_hang (sendmsg_vectored content k h).0 ≡ false
  unfolding sendmsg_vectored wrap_write
  sendmsg_vectored_returns content h =
      let (n, lt, passes) = fair.sends content h in
      then_returns (wrap_loop k.rounds writable (sendmsg content) k h) _ k
        (passed n k.rounds writable (sendmsg content) k h lt passes) (λ r h1. refl)

  respond_ends : (b : ProxyMessageBuffer) (h : History) → is_hang (respond b k h).0 ≡ false
  unfolding respond
  respond_ends b h =
      then_returns (sendmsg_vectored (packet b) k h) _ k (sendmsg_vectored_returns (packet b) h)
        (λ n h1. ground arith)

  status_or_error_returns :
      (r : Result SyscallStatus) → is_hang r ≡ false → is_hang (status_or_error r) ≡ false
  unfolding status_or_error
  status_or_error_returns r e = ground (arith, e)

  module _ (d : DevNumbers) where
    handle_syscall_ends :
        (msg : ProxyMessageBuffer) (h : History) → is_hang (handle_syscall d msg k h).0 ≡ false
    unfolding handle_syscall
    handle_syscall_ends msg h =
        ended (handle_syscall_do d msg k h) ((Frames-handle_syscall_do d msg).returns k h fair)
      where
        decided :
            (r : Result SyscallStatus) (h1 : History)
            → is_hang r ≡ false
            → is_hang
                (then_run
                  (r, h1)
                  (λ status. respond (set_response msg status) >> pure (set_response msg status))
                  k).0
              ≡ false
        decided r h1 e =
            then_returns (r, h1) _ k e
              λ s h2.
                then_returns (respond (set_response msg s) k h2) _ k
                  (respond_ends (set_response msg s) h2) (λ u h3. refl)

        ended :
            (x : Result SyscallStatus × History)
            → is_hang x.0 ≡ false
            → is_hang
                (then_run
                  (caught x)
                  (λ outcome k' h'.
                    then_run
                      (status_or_error outcome, h')
                      (λ status.
                        respond (set_response msg status) >> pure (set_response msg status))
                      k')
                  k).0
              ≡ false
        ended (ok s, h1) e =
            decided (status_or_error (ok s)) h1 (status_or_error_returns (ok s) refl)
        ended (err x, h1) e =
            decided (status_or_error (err x)) h1 (status_or_error_returns (err x) refl)
        ended (panic, h1) e =
            decided (status_or_error panic) h1 (status_or_error_returns panic refl)
        ended (hang, h1) e = cc

    -- The task comes to an outcome, or so many messages are answered first.
    abbrev Outlasts : ℕ → ProxyMessageBuffer → History → Type 0
    Outlasts n msg h = (is_hang (serve d n msg k h).0 ≡ false) ⊎ Takes d k n msg h

    serve_ends : (n : ℕ) (msg : ProxyMessageBuffer) (h : History) → Outlasts n msg h
    unfolding serve
    serve_ends zero msg h = inr stop
    serve_ends (suc n) msg h =
        received (serve_ends n) (recv msg k h) refl ((IsMute-recv msg).returns k h fair)
      where
        Ended : Result (Unit {0}) × History → Type 0
        Ended y = (is_hang y.0 ≡ false) ⊎ Takes d k (suc n) msg h

        answered :
            ((msg' : ProxyMessageBuffer) (h' : History) → Outlasts n msg' h')
            → (taken : ProxyMessageBuffer) (h1 : History) → recv msg k h ≡ (ok (true, taken), h1)
            → (y : Result ProxyMessageBuffer × History)
            → owning (held taken) (handle_syscall d taken) k h1 ≡ y
            → is_hang y.0 ≡ false
            → Ended (then_run y (λ msg'. serve d n msg') k)
        answered next taken h1 e (ok msg', h2) f w = elim (next msg' h2) [
          | inl ends ↦ inl ends
          | inr more ↦ inr (takes e (owning_ok (held taken) (handle_syscall d taken) k h1 f) more)
        ]
        answered next taken h1 e (err x, h2) f w = inl refl
        answered next taken h1 e (panic, h2) f w = inl refl
        answered next taken h1 e (hang, h2) f w = cc

        received :
            ((msg' : ProxyMessageBuffer) (h' : History) → Outlasts n msg' h')
            → (y : Result (Bool × ProxyMessageBuffer) × History) → recv msg k h ≡ y
            → is_hang y.0 ≡ false
            → Ended (
                then_run y
                  (λ (more, msg').
                    let next =
                      (owning (held msg') (handle_syscall d msg') >>= λ msg''. serve d n msg'') in
                    if more then next else pure tt)
                  k)
        received next (ok (true, taken), h1) e w =
            answered next taken h1 e (owning (held taken) (handle_syscall d taken) k h1) refl (
              left_returns (held taken) (handle_syscall d taken k h1) k
                (handle_syscall_ends taken h1))
        received next (ok (false, msg'), h1) e w = inl refl
        received next (err x, h1) e w = inl refl
        received next (panic, h1) e w = inl refl
        received next (hang, h1) e w = cc

-- If no call on the socket and no wait for a child is held up for as many attempts as there are rounds, the
-- task of a client comes to an outcome, unless the client keeps it busy: as many messages as there are
-- rounds are then received, handled and answered in turn.
pub main_ends :
    (d : DevNumbers) (sizes : SeccompNotifSizes) (cookie_mem : Bytes) (k : Kernel) (h : History)
    → IsFair k
    → (is_hang (main d sizes cookie_mem k h).0 ≡ false)
      ⊎ Takes d k k.rounds (LxcSeccomp.new sizes cookie_mem) h
unfolding main main_do wrap_error
main_ends d sizes cookie_mem k h fair =
    elim (serve_ends k fair d k.rounds (LxcSeccomp.new sizes cookie_mem) h) [
      | inl ends ↦ inl (ended (serve d k.rounds (LxcSeccomp.new sizes cookie_mem) k h) ends)
      | inr more ↦ inr more
    ]
  where
    ended :
        (x : Result (Unit {0}) × History)
        → is_hang x.0 ≡ false
        → is_hang (then_run (caught x) wrap_error k).0 ≡ false
    ended (ok u, h1) e = refl
    ended (err x, h1) e = rw (shut_down k h1) refl
    ended (panic, h1) e = refl
    ended (hang, h1) e = cc
