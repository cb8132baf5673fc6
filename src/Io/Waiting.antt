-- ===== src/Io/Waiting.antt =====
-- The loops that wait for a socket.
use pve_lxc_syscalld.Base.{
  Bool, refl, Result, ok, err, panic, hang, os, if◌then◌else◌, minus_one, eq_ℤ, ℕ, zero, suc, ◌<◌,
  true, false, ◌≡◌, ◌∷◌, arith,
}
use pve_lxc_syscalld.Kernel.{Kernel, History, Call, Reply, c_result}
use pve_lxc_syscalld.Io.{would_block, wrap_loop}

-- The history after `n` more calls of `c`.
abbrev pub again : ℕ → Call → History → History
again zero c h = h
again (suc n) c h = again n c (c ∷ h)

-- The history before the attempt of `c` that comes after `n` attempts, each after a wait.
abbrev pub attempts : Call → ℕ → Call → History → History
attempts ready zero c h = ready ∷ h
attempts ready (suc n) c h = attempts ready n c (c ∷ ready ∷ h)

-- The waits succeed, and the kernel would block the call `c` for exactly `n` attempts.
abbrev pub BlocksFor : Kernel → Call → Call → History → ℕ → Type 0
BlocksFor k ready c h zero =
    (eq_ℤ (k.reply h ready).res minus_one ≡ false) × (would_block (k.reply (ready ∷ h) c) ≡ false)
BlocksFor k ready c h (suc n) =
    (eq_ℤ (k.reply h ready).res minus_one ≡ false)
    × (would_block (k.reply (ready ∷ h) c) ≡ true)
    × BlocksFor k ready c (c ∷ ready ∷ h) n

-- Given more rounds than the call is blocked for, `wrap_read` and `wrap_write` return, after that many
-- attempts and one more, with the outcome of the first attempt that is not blocked. Before each attempt
-- they wait until the socket is ready, and the waits have to succeed.
pub wrap_loop_returns :
    (n fuel : ℕ) (ready c : Call) (k : Kernel) (h : History)
    → n < fuel
    → BlocksFor k ready c h n
    → wrap_loop fuel ready c k h
      ≡ (c_result (k.reply (attempts ready n c h) c), c ∷ attempts ready n c h)
unfolding wrap_loop
wrap_loop_returns n zero ready c k h lt b = absurd (omega arith)
wrap_loop_returns zero (suc fuel) ready c k h lt (p, q) = rw (p, q)
wrap_loop_returns (suc n) (suc fuel) ready c k h lt (p, q, b) =
    rw (p, q) (wrap_loop_returns n fuel ready c k (c ∷ ready ∷ h) (omega arith) b)

-- A loop that ends well ends with the call, which succeeded.
abbrev pub EndsOn : Kernel → Call → Result Reply × History → Type 0
EndsOn k c (ok r, h) =
    (h1 : History) × (h ≡ c ∷ h1) × (r ≡ k.reply h1 c) × (eq_ℤ r.res minus_one ≡ false)
EndsOn k c (err e, h) = Unit
EndsOn k c (panic, h) = Unit
EndsOn k c (hang, h) = Unit

module _ (k : Kernel) (ready c : Call) where
  if-EndsOn :
      (t : Bool) (x y : Result Reply × History)
      → EndsOn k c x
      → EndsOn k c y
      → EndsOn k c (if t then x else y)
  if-EndsOn true x y p q = p
  if-EndsOn false x y p q = q

  c_result-EndsOn : (h : History) → EndsOn k c (c_result (k.reply h c), c ∷ h)
  unfolding c_result
  c_result-EndsOn h = decided (eq_ℤ (k.reply h c).res minus_one) refl
    where
      decided :
          (t : Bool)
          → eq_ℤ (k.reply h c).res minus_one ≡ t
          → EndsOn k c ((if t then err (os (k.reply h c).errno) else ok (k.reply h c)), c ∷ h)
      decided true q = tt
      decided false q = (h, refl, refl, q)

  pub wrap_loop-EndsOn : (n : ℕ) (h : History) → EndsOn k c (wrap_loop n ready c k h)
  unfolding wrap_loop
  wrap_loop-EndsOn zero h = tt
  wrap_loop-EndsOn (suc n) h = if-EndsOn (eq_ℤ (k.reply h ready).res minus_one) _ _ tt (
      if-EndsOn (would_block (k.reply (ready ∷ h) c)) _ _ (wrap_loop-EndsOn n (c ∷ ready ∷ h))
        (c_result-EndsOn (ready ∷ h)))
