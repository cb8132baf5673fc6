-- ===== src/Guard/Rules.antt =====
-- The rules of `Keeps` for each way to compose actions.
use pve_lxc_syscalld.Base.{
  Bool, true, false, ◌∷◌, Result, ok, err, panic, hang, ◌≡◌, refl, if◌then◌else◌,
}
use pve_lxc_syscalld.Kernel
use pve_lxc_syscalld.Kernel.{
  Call, Reply, Kernel, History, Action, ◌>>=◌, ◌>>◌, then_run, lift, pure, throw, call, c_result,
  c_try, nix_result, nix_try, attempt,
}
use pve_lxc_syscalld.SysMknod.{DevNumbers}
use pve_lxc_syscalld.Guard.{Within, After, Keeps}

module _ (d : DevNumbers) (k : Kernel) (b : Bool) where
  pub keeps_result {ℓ} :
      {A : Type ℓ} (r : Result A) (h : History) → Within d k b h → After d k b (r, h)
  keeps_result (ok a) h w = w
  keeps_result (err e) h w = w
  keeps_result panic h w = w
  keeps_result hang h w = w.0

  pub Keeps-lift {ℓ} : {A : Type ℓ} (r : Result A) → Keeps d k b (lift r)
  Keeps-lift r = record { run = λ h w. keeps_result r h w }

  pub Keeps-pure {ℓ} : {A : Type ℓ} (a : A) → Keeps d k b (pure a)
  Keeps-pure a = record { run = λ h w. w }

  -- The second part is given how the first came out.
  pub Keeps-bind_ok {ℓ κ} :
      {A : Type ℓ} {B : Type κ} (m : Action A) (f : A → Action B)
      → Keeps d k b m
      → ((h : History) (a : A) (h' : History)
          → m k h ≡ (ok a, h')
          → Within d k b h'
          → After d k b (f a k h'))
      → Keeps d k b (m >>= f)
  Keeps-bind_ok {A} m f p q = record { run = λ h w. split h (m k h) refl (p.run h w) }
    where
      split :
          (h : History) (x : Result A × History)
          → m k h ≡ x
          → After d k b x
          → After d k b (then_run x f k)
      split h (ok a, h') e v = q h a h' e v
      split h (err e', h') e v = v
      split h (panic, h') e v = v
      split h (hang, h') e v = v

  pub Keeps-bind {ℓ κ} :
      {A : Type ℓ} {B : Type κ} (m : Action A) (f : A → Action B)
      → Keeps d k b m
      → ((a : A) → Keeps d k b (f a))
      → Keeps d k b (m >>= f)
  Keeps-bind m f p q = Keeps-bind_ok m f p (λ h a h' e w. (q a).run h' w)

  pub After-bind {ℓ κ} :
      {A : Type ℓ} {B : Type κ} (x : Result A × History) (f : A → Action B)
      → After d k b x
      → ((a : A) → Keeps d k b (f a))
      → After d k b (then_run x f k)
  After-bind (ok a, h) f w p = (p a).run h w
  After-bind (err e, h) f w p = w
  After-bind (panic, h) f w p = w
  After-bind (hang, h) f w p = w

  pub Keeps-then {ℓ κ} :
      {A : Type ℓ} {B : Type κ} (m : Action A) (n : Action B)
      → Keeps d k b m
      → Keeps d k b n
      → Keeps d k b (m >> n)
  Keeps-then m n p q = Keeps-bind m (λ _. n) p (λ _. q)

  pub After-caught {ℓ} :
      {A : Type ℓ} (x : Result A × History) → After d k b x → After d k b (Kernel.caught x)
  After-caught (ok a, h) w = w
  After-caught (err e, h) w = w
  After-caught (panic, h) w = w
  After-caught (hang, h) w = w

  pub Keeps-attempt {ℓ} : {A : Type ℓ} (m : Action A) → Keeps d k b m → Keeps d k b (attempt m)
  Keeps-attempt m p = record { run = λ h w. After-caught (m k h) (p.run h w) }

  pub Keeps-if {ℓ} :
      {A : Type ℓ} (t : Bool) (m n : Action A)
      → Keeps d k b m
      → Keeps d k b n
      → Keeps d k b (if t then m else n)
  Keeps-if true m n p q = p
  Keeps-if false m n p q = q

  -- The first branch is given that the test came out true.
  pub Keeps-if_true {ℓ} :
      {A : Type ℓ} (t : Bool) (m n : Action A)
      → (t ≡ true → Keeps d k b m)
      → Keeps d k b n
      → Keeps d k b (if t then m else n)
  Keeps-if_true true m n p q = p refl
  Keeps-if_true false m n p q = q

  -- A call that may be made here.
  abbrev pub Allows : Call → Type 0
  Allows c = (h : History) → Within d k b h → Within d k b (c ∷ h)

  pub Keeps-call : (c : Call) → Allows c → Keeps d k b (call c)
  Keeps-call c a = record { run = λ h w. a h w }

  pub Keeps-c_try : (c : Call) → Allows c → Keeps d k b (c_try c)
  Keeps-c_try c a = record { run = λ h w. keeps_result (c_result (k.reply h c)) (c ∷ h) (a h w) }

  pub Keeps-nix_try : (c : Call) → Allows c → Keeps d k b (nix_try c)
  Keeps-nix_try c a = record {
    run = λ h w. keeps_result (nix_result (k.reply h c)) (c ∷ h) (a h w);
  }
