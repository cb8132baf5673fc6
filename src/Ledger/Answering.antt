-- ===== src/Ledger/Answering.antt =====
-- What `handle_syscall` of src/client.rs leaves of the message and its descriptors.
use pve_lxc_syscalld.Base.{ℕ, zero, suc, refl, ◌∷◌, minus_one, eq_ℤ, inl, inr}
use pve_lxc_syscalld.Kernel.{Call, Kernel, History, writable, sendmsg}
use pve_lxc_syscalld.Io.{wrap_loop, would_block}
use pve_lxc_syscalld.LxcSeccomp.{ProxyMessageBuffer}
use pve_lxc_syscalld.SysMknod.{DevNumbers}
use pve_lxc_syscalld.Client.{set_response, handle_syscall}
use pve_lxc_syscalld.Ledger.{Same}
use pve_lxc_syscalld.Client.Handled.{respond_calls, handle_syscall_calls}
use pve_lxc_syscalld.Client.Answers.{packet}
use pve_lxc_syscalld.Ledger.Rules.{Quiet, Quiet-call, Same-trans, if-Same, Apart-Same}

wrap_loop-Same :
    (n : ℕ) (ready c : Call) (k : Kernel) (h : History)
    → Quiet ready
    → Quiet c
    → Same k h (wrap_loop n ready c k h).1
unfolding wrap_loop
wrap_loop-Same zero ready c k h p q = (refl, refl, λ w. w)
wrap_loop-Same (suc n) ready c k h p q =
    let here = Quiet-call ready k h p in
    let made = Same-trans k h (ready ∷ h) (c ∷ ready ∷ h) here (Quiet-call c k (ready ∷ h) q) in
    let rest =
      Same-trans k h (c ∷ ready ∷ h) (wrap_loop n ready c k (c ∷ ready ∷ h)).1 made
        (wrap_loop-Same n ready c k (c ∷ ready ∷ h) p q) in
    if-Same k h (eq_ℤ (k.reply h ready).res minus_one) _ _ here
      (if-Same k h (would_block (k.reply (ready ∷ h) c)) _ _ rest made)

module _ (d : DevNumbers) where
  pub handle_syscall-Same :
      (msg : ProxyMessageBuffer) (k : Kernel) (h : History) → Same k h (handle_syscall d msg k h).1
  handle_syscall-Same msg k h =
      let (h1, p, ends) = handle_syscall_calls d msg k h in
      let before = Apart-Same k p in
      elim ends [
        | inl e ↦ rw e before
        | inr (s, e) ↦
            let content = packet (set_response msg s) in
            rw (e, respond_calls)
              (Same-trans k h h1 (wrap_loop k.rounds writable (sendmsg content) k h1).1 before (
                wrap_loop-Same k.rounds writable (sendmsg content) k h1 (refl, λ r. refl)
                  (refl, λ r. refl)))
      ]
