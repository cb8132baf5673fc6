-- ===== src/Fork/Waiting.antt =====
-- The wait for a child.
use pve_lxc_syscalld.Base.{
  ℕ, zero, suc, ℤ, ◌⊎◌, inl, inr, minus_one, ◌<◌, eq_ℤ, true, false, ◌≡◌, ◌∷◌, ok, arith,
}
use pve_lxc_syscalld.Libc.{eintr}
use pve_lxc_syscalld.Kernel.{Kernel, History, Reply, waitpid}
use pve_lxc_syscalld.Io.Waiting.{again}
use pve_lxc_syscalld.Fork.{wait_loop}

-- A signal interrupted the wait, or it was another child that ended.
abbrev pub IsIgnored : ℤ → Reply → Type 0
IsIgnored pid r =
    ((eq_ℤ r.res minus_one ≡ true) × (eq_ℤ r.errno eintr ≡ true))
    ⊎ ((eq_ℤ r.res minus_one ≡ false) × (eq_ℤ r.res pid ≡ false))

-- The first `n` replies are of that kind, and the next one is of the child.
abbrev pub EndsAfter : Kernel → ℤ → History → ℕ → Type 0
EndsAfter k pid h zero =
    (eq_ℤ (k.reply h (waitpid pid)).res minus_one ≡ false)
    × (eq_ℤ (k.reply h (waitpid pid)).res pid ≡ true)
EndsAfter k pid h (suc n) =
    IsIgnored pid (k.reply h (waitpid pid)) × EndsAfter k pid (waitpid pid ∷ h) n

-- Given more rounds than there are interruptions and other children's ends, the wait for a child
-- returns with the exit status of that child, after one attempt more than those.
pub wait_loop_returns :
    (n fuel : ℕ) (pid : ℤ) (k : Kernel) (h : History)
    → n < fuel
    → EndsAfter k pid h n
    → wait_loop fuel pid k h ≡ (
      ok (k.reply (again n (waitpid pid) h) (waitpid pid)).status,
      waitpid pid ∷ again n (waitpid pid) h,
    )
unfolding wait_loop
wait_loop_returns n zero pid k h lt b = absurd (omega arith)
wait_loop_returns zero (suc fuel) pid k h lt b = rw (b.0, b.1)
wait_loop_returns (suc n) (suc fuel) pid k h lt (inl i, b) =
    rw (i.0, i.1) (wait_loop_returns n fuel pid k (waitpid pid ∷ h) (omega arith) b)
wait_loop_returns (suc n) (suc fuel) pid k h lt (inr i, b) =
    rw (i.0, i.1) (wait_loop_returns n fuel pid k (waitpid pid ∷ h) (omega arith) b)
