-- ===== src/Ledger/Rules.antt =====
-- What leaves the descriptors as they are.
use pve_lxc_syscalld.Base.{
  Bool, true, false, [], ◌∷◌, ◌++◌, Result, ◌≡◌, refl, ◌∙◌, ap, if◌then◌else◌,
}
use pve_lxc_syscalld.Kernel.{Call, Reply, Kernel, History, recvmsg, sendmsg, close}
use pve_lxc_syscalld.Frame.{is_aside, Apart, same, aside}
use pve_lxc_syscalld.Ledger.{brings, closes, handed, closed, Same}

-- A call that neither brings a descriptor nor closes one.
abbrev pub Quiet : Call → Type 0
Quiet c = (closes c ≡ []) × ((r : Reply) → brings c r ≡ [])

pub Quiet-call : (c : Call) (k : Kernel) (h : History) → Quiet c → Same k h (c ∷ h)
Quiet-call c k h (p, q) =
    (ap (λ l. l ++ handed k h) (q (k.reply h c)), ap (λ l. l ++ closed h) p, λ w. (rw p tt, w))

pub aside-Quiet : (c : Call) → is_aside c ≡ true → Quiet c
aside-Quiet recvmsg e = cc
aside-Quiet (sendmsg content) e = (refl, λ r. refl)
aside-Quiet (close fd) e = cc
aside-Quiet c e = (refl, λ r. refl)

pub Same-trans : (k : Kernel) (h h1 h2 : History) → Same k h h1 → Same k h1 h2 → Same k h h2
Same-trans k h h1 h2 (a, b, u) (c, d, v) = (c ∙ a, d ∙ b, λ w. v (u w))

pub Apart-Same : (k : Kernel) {h h' : History} → Apart h h' → Same k h h'
Apart-Same k {h} same = (refl, refl, λ w. w)
Apart-Same k {h} (aside c {h'} e p) =
    Same-trans k h h' (c ∷ h') (Apart-Same k p) (Quiet-call c k h' (aside-Quiet c e))

pub if-Same {ℓ} :
    {A : Type ℓ} (k : Kernel) (h : History) (t : Bool) (x y : Result A × History)
    → Same k h x.1
    → Same k h y.1
    → Same k h (if t then x else y).1
if-Same k h true x y p q = p
if-Same k h false x y p q = q
