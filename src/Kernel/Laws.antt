-- ===== src/Kernel/Laws.antt =====
-- Facts of actions: the calls that a successful one has made, one step at a time.
use pve_lxc_syscalld.Base.{
  ℤ, Result, ok, err, panic, hang, minus_one, eq_ℤ, List, [], ◌∷◌, ◌++◌, ◌≡◌, refl, arith, false,
}
use pve_lxc_syscalld.Kernel.{
  close, left_with, dropped, close_all, owning, Call, Reply, Kernel, History, Action, ◌>>=◌, ◌>>◌,
  then_run, c_result, c_try,
}

-- The history after some calls, the first of them first.
abbrev pub push_all : List Call → History → History
push_all [] h = h
push_all (c ∷ cs) h = push_all cs (c ∷ h)

pub push_all-append :
    (cs ds : List Call) (h : History) → push_all (cs ++ ds) h ≡ push_all ds (push_all cs h)
push_all-append [] ds h = refl
push_all-append (c ∷ cs) ds h = push_all-append cs ds (c ∷ h)

-- A sequence that succeeds has succeeded in both parts.
pub bind_ok {ℓ κ} :
    {A : Type ℓ} {B : Type κ} (m : Action A) (f : A → Action B) (k : Kernel) (h : History)
    {h'' : History} {b : B}
    → (m >>= f) k h ≡ (ok b, h'')
    → (a : A) × (h' : History) × (m k h ≡ (ok a, h')) × (f a k h' ≡ (ok b, h''))
bind_ok {A} {B} m f k h {h''} {b} e = split (m k h) refl e
  where
    split :
        (p : Result A × History)
        → m k h ≡ p
        → then_run p f k ≡ (ok b, h'')
        → (a : A) × (h' : History) × (m k h ≡ (ok a, h')) × (f a k h' ≡ (ok b, h''))
    split (ok a, h') q e = (a, h', q, e)
    split (err x, h') q e = cc
    split (panic, h') q e = cc
    split (hang, h') q e = cc

pub c_try_ok :
    (c : Call) (k : Kernel) (h : History) {h' : History} {r : Reply}
    → c_try c k h ≡ (ok r, h')
    → (h' ≡ c ∷ h) × (r ≡ k.reply h c) × (eq_ℤ r.res minus_one ≡ false)
unfolding c_result
c_try_ok c k h e = ground arith

pub close_all_drops :
    (fds : List ℤ) (k : Kernel) (h : History) → close_all fds k h ≡ (ok tt, dropped fds h)
close_all_drops [] k h = refl
close_all_drops (fd ∷ fds) k h = close_all_drops fds k (close fd ∷ h)

-- What is owned is kept by a block that ends well.
pub owning_ok {ℓ} :
    {A : Type ℓ} (fds : List ℤ) (m : Action A) (k : Kernel) (h : History) {h' : History} {a : A}
    → owning fds m k h ≡ (ok a, h')
    → m k h ≡ (ok a, h')
owning_ok {A} fds m k h {h'} {a} e = split (m k h) e
  where
    split : (x : Result A × History) → left_with fds x k ≡ (ok a, h') → x ≡ (ok a, h')
    split (ok b, h1) q = q
    split (err x, h1) q = let f = rw (close_all_drops fds k h1) at q in cc
    split (panic, h1) q = let f = rw (close_all_drops fds k h1) at q in cc
    split (hang, h1) q = cc

-- If the action succeeds, it has made exactly these calls.
abbrev pub Makes : Kernel → History → Action (Unit {0}) → List Call → Type 0
Makes k h m cs = (h' : History) → m k h ≡ (ok tt, h') → h' ≡ push_all cs h

pub Makes-seq :
    (k : Kernel) (h : History) (m n : Action (Unit {0})) (cs ds : List Call)
    → Makes k h m cs
    → Makes k (push_all cs h) n ds
    → Makes k h (m >> n) (cs ++ ds)
Makes-seq k h m n cs ds p q h'' e =
    let (_, h', e1, e2) = bind_ok m (λ _. n) k h e in
    let moved : n k (push_all cs h) ≡ (ok tt, h'') = rw (p h' e1) at e2 in
    rw push_all-append (q h'' moved)
