-- ===== src/Capability/Laws.antt =====
-- What reaches the kernel of a process' capability sets.
use pve_lxc_syscalld.Base.{ℕ, ◌+◌, ◌*◌, ◌^◌, ◌<◌, ◌≡◌, List, [], ◌∷◌, arith}
use pve_lxc_syscalld.Capability.{Capabilities, capset_data}

-- The three sets (effective, permitted, inheritable) that the kernel reads from the two halves.
abbrev pub joined : List (ℕ × ℕ × ℕ) → ℕ × ℕ × ℕ
joined ((e, p, i) ∷ (e', p', i') ∷ []) = (e + 2 ^ 32 * e', p + 2 ^ 32 * p', i + 2 ^ 32 * i')
joined _ = (0, 0, 0)

-- `capset` hands over all 64 bits of each of the three sets, and each to its own place.
pub joined-capset_data :
    (c : Capabilities)
    → c.effective < 2 ^ 64
    → c.permitted < 2 ^ 64
    → c.inheritable < 2 ^ 64
    → joined (capset_data c) ≡ (c.effective, c.permitted, c.inheritable)
unfolding capset_data
joined-capset_data c e p i = ground arith
