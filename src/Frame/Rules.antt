-- ===== src/Frame/Rules.antt =====
-- The rules of `Frames` for each way to compose actions.
use pve_lxc_syscalld.Base.{
  Bool, true, false, ◌∷◌, Result, ok, err, panic, hang, ◌≡◌, refl, if◌then◌else◌, is_hang, arith,
}
use pve_lxc_syscalld.Kernel
use pve_lxc_syscalld.Kernel.{
  Call, Reply, c_result, nix_result, Kernel, History, Action, ◌>>=◌, ◌>>◌, then_run, lift, pure,
  call, c_try, nix_try, attempt,
}
use pve_lxc_syscalld.Frame.{is_aside, Apart, same, aside, IsFair, Frames}
use pve_lxc_syscalld.Frame.Returns.{pure_parts}

pub Frames-lift {ℓ} : {A : Type ℓ} (r : Result A) → is_hang r ≡ false → Frames (lift r)
Frames-lift r e = record { run = λ k h. same; returns = λ k h w. e }

pub Frames-pure {ℓ} : {A : Type ℓ} (a : A) → Frames (pure a)
Frames-pure a = record { run = λ k h. same; returns = λ k h w. refl }

pub Frames-call : (c : Call) → is_aside c ≡ true → Frames (call c)
Frames-call c p = record { run = λ k h. aside c p same; returns = λ k h w. refl }

pub c_result_returns : (r : Reply) → is_hang (c_result r) ≡ false
unfolding c_result
c_result_returns r = ground arith

nix_result_returns : (r : Reply) → is_hang (nix_result r) ≡ false
nix_result_returns r = ground arith

pub Frames-c_try : (c : Call) → is_aside c ≡ true → Frames (c_try c)
Frames-c_try c p = record {
  run = λ k h. aside c p same;
  returns = λ k h w. c_result_returns (k.reply h c);
}

pub Frames-nix_try : (c : Call) → is_aside c ≡ true → Frames (nix_try c)
Frames-nix_try c p = record {
  run = λ k h. aside c p same;
  returns = λ k h w. nix_result_returns (k.reply h c);
}

pub Apart-trans : {h h1 h2 : History} → Apart h h1 → Apart h1 h2 → Apart h h2
Apart-trans p same = p
Apart-trans p (aside c e q) = aside c e (Apart-trans p q)

pub Apart-along : {h h1 h2 h3 : History} → h ≡ h1 → Apart h1 h2 → h2 ≡ h3 → Apart h h3
Apart-along e p f = rw e (rw f at p)

pub then-Apart {ℓ κ} :
    {A : Type ℓ} {B : Type κ} (x : Result A × History) (f : A → Action B) (k : Kernel) (h : History)
    → Apart h x.1
    → ((a : A) → Frames (f a))
    → Apart h (then_run x f k).1
then-Apart (ok a, h1) f k h w p = Apart-trans w ((p a).run k h1)
then-Apart (err e, h1) f k h w p = w
then-Apart (panic, h1) f k h w p = w
then-Apart (hang, h1) f k h w p = w

pub then_returns {ℓ κ} :
    {A : Type ℓ} {B : Type κ} (x : Result A × History) (f : A → Action B) (k : Kernel)
    → is_hang x.0 ≡ false
    → ((a : A) (h : History) → is_hang (f a k h).0 ≡ false)
    → is_hang (then_run x f k).0 ≡ false
then_returns (ok a, h) f k e p = p a h
then_returns (err e, h) f k q p = refl
then_returns (panic, h) f k q p = refl
then_returns (hang, h) f k q p = q

pub Frames-bind {ℓ κ} :
    {A : Type ℓ} {B : Type κ} (m : Action A) (f : A → Action B)
    → Frames m
    → ((a : A) → Frames (f a))
    → Frames (m >>= f)
Frames-bind m f p q = record {
  run = λ k h. then-Apart (m k h) f k h (p.run k h) q;
  returns = λ k h w. then_returns (m k h) f k (p.returns k h w) (λ a h'. (q a).returns k h' w);
}

pub Frames-then {ℓ κ} :
    {A : Type ℓ} {B : Type κ} (m : Action A) (n : Action B) → Frames m → Frames n → Frames (m >> n)
Frames-then m n p q = Frames-bind m (λ _. n) p (λ _. q)

caught-Apart {ℓ} :
    {A : Type ℓ} (x : Result A × History) (h : History) → Apart h x.1 → Apart h (Kernel.caught x).1
caught-Apart (ok a, h1) h w = w
caught-Apart (err e, h1) h w = w
caught-Apart (panic, h1) h w = w
caught-Apart (hang, h1) h w = w

pub caught_returns {ℓ} :
    {A : Type ℓ} (x : Result A × History)
    → is_hang x.0 ≡ false
    → is_hang (Kernel.caught x).0 ≡ false
caught_returns (ok a, h) e = refl
caught_returns (err x, h) e = refl
caught_returns (panic, h) e = refl
caught_returns (hang, h) e = e

pub Frames-attempt {ℓ} : {A : Type ℓ} (m : Action A) → Frames m → Frames (attempt m)
Frames-attempt m p = record {
  run = λ k h. caught-Apart (m k h) h (p.run k h);
  returns = λ k h w. caught_returns (m k h) (p.returns k h w);
}

-- What is caught is an outcome.
pub Frames-attempted {ℓ κ} :
    {A : Type ℓ} {B : Type κ} (m : Action A) (f : Result A → Action B)
    → Frames m
    → ((r : Result A) → is_hang r ≡ false → Frames (f r))
    → Frames (attempt m >>= f)
Frames-attempted {A} m f p q = record {
  run = λ k h. moved k h (m k h) (p.run k h);
  returns = λ k h w. ended k w (m k h) (p.returns k h w);
}
  where
    moved :
        (k : Kernel) (h : History) (x : Result A × History)
        → Apart h x.1
        → Apart h (then_run (Kernel.caught x) f k).1
    moved k h (ok a, h1) w = Apart-trans w ((q (ok a) refl).run k h1)
    moved k h (err e, h1) w = Apart-trans w ((q (err e) refl).run k h1)
    moved k h (panic, h1) w = Apart-trans w ((q panic refl).run k h1)
    moved k h (hang, h1) w = w

    ended :
        (k : Kernel)
        → IsFair k
        → (x : Result A × History) → is_hang x.0 ≡ false
        → is_hang (then_run (Kernel.caught x) f k).0 ≡ false
    ended k w (ok a, h1) e = (q (ok a) refl).returns k h1 w
    ended k w (err e', h1) e = (q (err e') refl).returns k h1 w
    ended k w (panic, h1) e = (q panic refl).returns k h1 w
    ended k w (hang, h1) e = e

pub Frames-if {ℓ} :
    {A : Type ℓ} (t : Bool) (m n : Action A) → Frames m → Frames n → Frames (if t then m else n)
Frames-if true m n p q = p
Frames-if false m n p q = q

pub if-Apart {ℓ} :
    {A : Type ℓ} (h : History) (t : Bool) (x y : Result A × History)
    → Apart h x.1
    → Apart h y.1
    → Apart h (if t then x else y).1
if-Apart h true x y p q = p
if-Apart h false x y p q = q

pub ruleset framing = (
  Frames-bind, Frames-then, Frames-pure, Frames-lift, Frames-call, Frames-c_try, Frames-nix_try,
  Frames-attempt, Frames-if, refl, pure_parts,
)
