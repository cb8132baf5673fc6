-- ===== src/Seccomp/Sizes.antt =====
-- The sizes with which the daemon runs.
use pve_lxc_syscalld.Kernel.{Kernel, History, seccomp_sizes}
use pve_lxc_syscalld.Base.{replicate, overwrite, pos, ◌∷◌, ◌≡◌, ◌↔◌, arith, ok}
use pve_lxc_syscalld.Seccomp.{decode_sizes, get_checked, SeccompNotifSizes, check}

-- `check` passes exactly on the sizes of the structures that the kernel documents: 80 bytes for a
-- notification, 24 for a response and 64 for the call's data.
pub check_iff :
    (s : SeccompNotifSizes)
    → (check s ≡ ok tt) ↔ ((s.notif ≡ 80) × (s.notif_resp ≡ 24) × (s.call ≡ 64))
unfolding check
check_iff s = ground arith

-- The sizes that the daemon gets are those that the kernel wrote, if its answer is 0 and they are the
-- documented ones; any other answer or size is an error. One call is made.
pub get_checked_iff :
    (k : Kernel) (h : History) (s : SeccompNotifSizes)
    → let r = k.reply h seccomp_sizes in
      (get_checked k h ≡ (ok s, seccomp_sizes ∷ h)) ↔ (
        (r.res ≡ pos 0)
        × (s ≡ decode_sizes (overwrite r.out (replicate 6 0)))
        × (s.notif ≡ 80)
        × (s.notif_resp ≡ 24)
        × (s.call ≡ 64))
unfolding get_checked
get_checked_iff k h s = ground arith
