-- ===== src/Client/First.antt =====
-- The first client, whose task finds `SECCOMP_SIZES` of src/lxcseccomp.rs.
use pve_lxc_syscalld.Base.{
  replicate, overwrite, pos, ◌∷◌, ◌≡◌, ◌⊎◌, inl, inr, arith, ok, panic, Bytes, err, eq_ℤ,
  Bool-cases, true, ℤ, ◌↔◌, io_kind, kind_other,
}
use pve_lxc_syscalld.Kernel.{Kernel, History, Reply, seccomp_sizes}
use pve_lxc_syscalld.Seccomp.{SeccompNotifSizes, decode_sizes, check}
use pve_lxc_syscalld.LxcSeccomp
use pve_lxc_syscalld.SysMknod.{DevNumbers}
use pve_lxc_syscalld.Client.{main, first_main}

-- The sizes that a reply of the kernel says.
abbrev pub told : Reply → SeccompNotifSizes
told r = decode_sizes (overwrite r.out (replicate 6 0))

-- The structures have the sizes that the daemon was built for.
abbrev pub AreBuiltFor : SeccompNotifSizes → Type 0
AreBuiltFor s = (s.notif ≡ 80) × (s.notif_resp ≡ 24) × (s.call ≡ 64)

-- The call succeeded with such sizes.
abbrev pub Suits : Reply → Type 0
Suits r = (r.res ≡ pos 0) × AreBuiltFor (told r)

check_cases :
    (s : SeccompNotifSizes)
    → (AreBuiltFor s × (check s ≡ ok tt))
      ⊎ ((¬ AreBuiltFor s) × (check s ≡ err (io_kind kind_other)))
unfolding check
check_cases s = ground arith

succeeded_iff : (z : ℤ) → (eq_ℤ z (pos 0) ≡ true) ↔ (z ≡ pos 0)
succeeded_iff z = ground arith

-- How the sizes are found.
found :
    (k : Kernel) (h : History)
    → let r = k.reply h seccomp_sizes in
      (Suits r × (LxcSeccomp.seccomp_sizes k h ≡ (ok (told r), seccomp_sizes ∷ h)))
      ⊎ ((¬ Suits r) × (LxcSeccomp.seccomp_sizes k h ≡ (panic, seccomp_sizes ∷ h)))
unfolding LxcSeccomp.seccomp_sizes
found k h =
    let r = k.reply h seccomp_sizes in
    elim (Bool-cases (eq_ℤ r.res (pos 0))) [
      | inl zero ↦ elim (check_cases (told r)) [
        | inl (fit, e) ↦ inl (((succeeded_iff r.res).0 zero, fit), rw (zero, e))
        | inr (unfit, e) ↦ inr (λ w. unfit w.1, rw (zero, e))
      ]
      | inr failed ↦ inr (λ w. cc (failed, (succeeded_iff r.res).1 w.0), rw failed)
    ]

-- When the first message could be awaited, the task of the first client goes on with the sizes that the
-- kernel told, exactly if they are those that the daemon was built for. Otherwise it panics after that one
-- call: no message is received, and the client is not answered.
pub first_main_decides :
    (d : DevNumbers) (mem : Bytes) (k : Kernel) (h : History)
    → let r = k.reply h seccomp_sizes in
      (Suits r × (first_main d mem k h ≡ main d (told r) mem k (seccomp_sizes ∷ h)))
      ⊎ ((¬ Suits r) × (first_main d mem k h ≡ (panic, seccomp_sizes ∷ h)))
unfolding first_main
first_main_decides d mem k h = elim (found k h) [
  | inl (fit, e) ↦ inl (fit, rw e)
  | inr (unfit, e) ↦ inr (unfit, rw e)
]
