-- ===== src/Syscall/Table.antt =====
-- What `translate_syscall` accepts.
use pve_lxc_syscalld.Base.{ℕ, ℤ, pos, some, ◌≡◌, ◌↔◌, ◌⊎◌, arith}
use pve_lxc_syscalld.Syscall.{Syscall, mknod, mknodat, quotactl, translate_syscall}

-- The numbers of the handled calls in Linux' tables for x86_64 and for i386.
abbrev pub Handled : ℕ → ℤ → Syscall → Type 0
Handled arch nr mknod =
    ((arch ≡ 0xc000003e) × (nr ≡ pos 133)) ⊎ ((arch ≡ 0x40000003) × (nr ≡ pos 14))
Handled arch nr mknodat =
    ((arch ≡ 0xc000003e) × (nr ≡ pos 259)) ⊎ ((arch ≡ 0x40000003) × (nr ≡ pos 297))
Handled arch nr quotactl =
    ((arch ≡ 0xc000003e) × (nr ≡ pos 179)) ⊎ ((arch ≡ 0x40000003) × (nr ≡ pos 131))

-- A pair of an architecture and a number is translated to a system call exactly when the tables of
-- Linux give that number to that call.
pub translate_iff :
    (arch : ℕ) (nr : ℤ) (s : Syscall) → (translate_syscall arch nr ≡ some s) ↔ Handled arch nr s
unfolding translate_syscall
translate_iff arch nr mknod = ground arith
translate_iff arch nr mknodat = ground arith
translate_iff arch nr quotactl = ground arith
