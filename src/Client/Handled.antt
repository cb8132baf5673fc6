-- ===== src/Client/Handled.antt =====
-- The calls of `handle_syscall` of src/client.rs: those of a handler, then the sending of one answer.
use pve_lxc_syscalld.Base.{◌≡◌, refl, ◌∙◌, ◌⊎◌, inl, inr, arith, ok, err, panic, hang, Result}
use pve_lxc_syscalld.Kernel.{
  Kernel, History, Action, ◌>>◌, writable, sendmsg, then_run, caught, pure, attempt, lift,
}
use pve_lxc_syscalld.Kernel.Laws.{bind_ok}
use pve_lxc_syscalld.Io.{wrap_loop, wrap_write}
use pve_lxc_syscalld.Io.SeqPacket.{sendmsg_vectored}
use pve_lxc_syscalld.LxcSeccomp.{ProxyMessageBuffer, respond}
use pve_lxc_syscalld.Syscall.{SyscallStatus}
use pve_lxc_syscalld.SysMknod.{DevNumbers}
use pve_lxc_syscalld.Client.{status_or_error, set_response, handle_syscall_do, handle_syscall}
use pve_lxc_syscalld.Client.Answers.{packet}
use pve_lxc_syscalld.Frame.{Apart}
use pve_lxc_syscalld.Frame.Dispatch.{Frames-handle_syscall_do}

-- What follows makes no call.
then_silent {ℓ κ} :
    {A : Type ℓ} {B : Type κ} (x : Result A × History) (f : A → Action B) (k : Kernel)
    → ((a : A) (h : History) → (f a k h).1 ≡ h)
    → (then_run x f k).1 ≡ x.1
then_silent (ok a, h) f k p = p a h
then_silent (err e, h) f k p = refl
then_silent (panic, h) f k p = refl
then_silent (hang, h) f k p = refl

-- The calls that `respond` makes are those of one loop.
pub respond_calls :
    (b : ProxyMessageBuffer) (k : Kernel) (h : History)
    → (respond b k h).1 ≡ (wrap_loop k.rounds writable (sendmsg (packet b)) k h).1
unfolding respond sendmsg_vectored wrap_write
respond_calls b k h =
    then_silent (sendmsg_vectored (packet b) k h) _ k (λ n h1. ground arith)
    ∙ then_silent (wrap_loop k.rounds writable (sendmsg (packet b)) k h) _ k (λ r h1. refl)

module _ (d : DevNumbers) (msg : ProxyMessageBuffer) (k : Kernel) where
  -- After the handler there is no more call, or an answer is sent.
  abbrev Ends : History → Result ProxyMessageBuffer × History → Type 0
  Ends h1 y = (y.1 ≡ h1) ⊎ ((s : SyscallStatus) × (y.1 ≡ (respond (set_response msg s) k h1).1))

  decided-Ends :
      (r : Result SyscallStatus) (h1 : History)
      → Ends h1 (
          then_run
            (r, h1)
            (λ status. respond (set_response msg status) >> pure (set_response msg status))
            k)
  decided-Ends (ok s) h1 =
      inr (s, then_silent (respond (set_response msg s) k h1) _ k (λ a h2. refl))
  decided-Ends (err e) h1 = inl refl
  decided-Ends panic h1 = inl refl
  decided-Ends hang h1 = inl refl

  pub handle_syscall_calls :
      (h : History) → (h1 : History) × Apart h h1 × Ends h1 (handle_syscall d msg k h)
  unfolding handle_syscall
  handle_syscall_calls h =
      let x = handle_syscall_do d msg k h in
      (x.1, (Frames-handle_syscall_do d msg).run k h, split x)
    where
      split :
          (x : Result SyscallStatus × History)
          → Ends x.1 (
              then_run
                (caught x)
                (λ outcome k' h'.
                  then_run
                    (status_or_error outcome, h')
                    (λ status. respond (set_response msg status) >> pure (set_response msg status))
                    k')
                k)
      split (ok s, h1) = decided-Ends (status_or_error (ok s)) h1
      split (err e, h1) = decided-Ends (status_or_error (err e)) h1
      split (panic, h1) = decided-Ends (status_or_error panic) h1
      split (hang, h1) = inl refl

module _ (d : DevNumbers) where
  -- If a message was answered, its buffer has been given a status.
  pub handle_syscall_sets :
      (msg msg' : ProxyMessageBuffer) (k : Kernel) (h h' : History)
      → handle_syscall d msg k h ≡ (ok msg', h')
      → (s : SyscallStatus) × (msg' ≡ set_response msg s)
  unfolding handle_syscall
  handle_syscall_sets msg msg' k h h' e =
      let (outcome, h1, e1, f1) = bind_ok (attempt (handle_syscall_do d msg)) _ k h e in
      let (s, h2, e2, f2) = bind_ok (lift (status_or_error outcome)) _ k h1 f1 in
      let (_, h3, e3, f3) = bind_ok (respond (set_response msg s)) _ k h2 f2 in
      (s, ground (arith, f3))
