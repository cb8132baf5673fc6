-- ===== src/Tools/PollFn.antt =====
-- src/poll_fn.rs: a future made of a closure. The closure's own state is what `FnMut` may change.
use pve_lxc_syscalld.Base.{
  ◌∙◌, arith, ◌∷◌, [], ◌++◌, ap, if◌then◌else◌, List, replicate, ◌+◌, Bool, true, false, Option,
  some, none, Result, ok, panic, ◌≡◌, refl, ℕ, zero, suc,
}
use pve_lxc_syscalld.Io.Pipe.{Poll, ready, pending}

module _ {ℓ κ} {S : Type ℓ} {R : Type κ} (func : S → Poll R × S) where
  -- `PollFn`: the closure, until it was ready.
  abbrev pub PollFn : Type ℓ
  PollFn = Option S

  abbrev pub poll_fn : S → PollFn
  poll_fn s = some s

  abbrev is_ready : Poll R → Bool
  is_ready (ready r) = true
  is_ready pending = false

  -- `poll`, and the future after it
  unfoldable pub poll : PollFn → Result (Poll R) × PollFn
  poll none = (panic, none)
  poll (some s) = let (res, s') = func s in (ok res, if is_ready res then none else some s')

  -- The outcomes of some polls, one after the other.
  abbrev pub polls : ℕ → PollFn → List (Result (Poll R))
  polls zero p = []
  polls (suc n) p = let (outcome, p') = poll p in outcome ∷ polls n p'

  -- The closure is pending for `n` calls, and then ready with `r`.
  abbrev pub ReadyAfter : ℕ → S → R → Type κ
  ReadyAfter zero s r = (func s).0 ≡ ready r
  ReadyAfter (suc n) s r = ((func s).0 ≡ pending) × ReadyAfter n (func s).1 r

  done_panics : (m : ℕ) → polls m none ≡ replicate m panic
  unfolding poll
  done_panics zero = refl
  done_panics (suc m) = ap (λ t. panic ∷ t) (done_panics m)

  polls_from :
      (n m total : ℕ) (s : S) (r : R)
      → total ≡ n + suc m
      → ReadyAfter n s r
      → polls total (some s) ≡ replicate n (ok pending) ++ ok (ready r) ∷ replicate m panic
  unfolding poll
  polls_from n m zero s r t e = absurd (omega arith)
  polls_from zero m (suc total) s r t e =
      let same : total ≡ m = omega arith in
      rw e (ap (λ j. ok (ready r) ∷ polls j none) same ∙ ap (λ t. ok (ready r) ∷ t) (done_panics m))
  polls_from (suc n) m (suc total) s r t (e, w) =
      rw e (ap (λ t. ok pending ∷ t) (polls_from n m total (func s).1 r (omega arith) w))

  -- A future of a closure is polled to what the closure gives, up to the first time that it is ready;
  -- each later poll panics, and the closure is not called again.
  pub polls-ReadyAfter :
      (n m : ℕ) (s : S) (r : R)
      → ReadyAfter n s r
      → polls (n + suc m) (poll_fn s) ≡ replicate n (ok pending) ++ ok (ready r) ∷ replicate m panic
  polls-ReadyAfter n m s r w = polls_from n m (n + suc m) s r refl w
