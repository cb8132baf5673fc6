-- ===== src/SysMknod/Refusal.antt =====
-- Which devices `mknodat` allows, and its early returns.
use Prim.Native.Nat.{bit_and}
use pve_lxc_syscalld.Base.{
  Bool, refl, List, [], ◌∷◌, ◌⊎◌, ◌↔◌, ℕ, ◌%◌, ◌-◌, ◌^◌, ◌<◌, ◌≡◌, true, false, some, ok, panic,
  get_elem?, arith,
}
use pve_lxc_syscalld.Libc.{eperm, o_directory}
use pve_lxc_syscalld.Kernel.{Kernel, History}
use pve_lxc_syscalld.LxcSeccomp.{ProxyMessageBuffer, from_raw_fd}
use pve_lxc_syscalld.LxcSeccomp.Args.{arg, arg_mode_t, arg_dev_t, arg_fd, narrow}
use pve_lxc_syscalld.Syscall.{failed}
use pve_lxc_syscalld.SysMknod.{
  DevNumbers, check_mknod_dev, is_allowed_dev, mknodat, mknodat_allowed,
}

-- What a container may make, by file type, major and minor number: regular files, the whiteouts of an
-- overlay, tty, console, ptmx, null, zero, full, random and urandom.
abbrev pub safe_devices : List (ℕ × ℕ × ℕ)
safe_devices =
    (0x8000, 0, 0)
    ∷ (0x2000, 0, 0)
    ∷ (0x2000, 5, 0)
    ∷ (0x2000, 5, 1)
    ∷ (0x2000, 5, 2)
    ∷ (0x2000, 1, 3)
    ∷ (0x2000, 1, 5)
    ∷ (0x2000, 1, 7)
    ∷ (0x2000, 1, 8)
    ∷ (0x2000, 1, 9)
    ∷ []

abbrev pub IsOneOf : ℕ → ℕ → ℕ → List (ℕ × ℕ × ℕ) → Type 0
IsOneOf t major minor [] = ⊥
IsOneOf t major minor ((t', major', minor') ∷ ds) =
    ((t ≡ t') × (major ≡ major') × (minor ≡ minor')) ⊎ IsOneOf t major minor ds

-- The file type is the four bits of the mode from the twelfth on.
abbrev pub IsSafeDevice : DevNumbers → ℕ → ℕ → Type 0
IsSafeDevice d mode dev = IsOneOf (bit_and mode 0xf000) (d.major dev) (d.minor dev) safe_devices

is_allowed_dev_sound : (t a b : ℕ) → is_allowed_dev t a b ≡ true → IsOneOf t a b safe_devices
unfolding is_allowed_dev
is_allowed_dev_sound t a b e = ground (arith, e)

is_allowed_dev_complete : (t a b : ℕ) → IsOneOf t a b safe_devices → is_allowed_dev t a b ≡ true
unfolding is_allowed_dev
is_allowed_dev_complete t a b e = ground (arith, e)

-- The check accepts the devices of the list and no others.
pub check_mknod_dev_iff :
    (d : DevNumbers) (mode dev : ℕ) → (check_mknod_dev d mode dev ≡ true) ↔ IsSafeDevice d mode dev
unfolding check_mknod_dev
check_mknod_dev_iff d mode dev = (is_allowed_dev_sound _ _ _, is_allowed_dev_complete _ _ _)

refused :
    (d : DevNumbers) (mode dev : ℕ) → ¬ IsSafeDevice d mode dev → check_mknod_dev d mode dev ≡ false
refused d mode dev unsafe = by_check (check_mknod_dev d mode dev) refl
  where
    by_check : (t : Bool) → check_mknod_dev d mode dev ≡ t → t ≡ false
    by_check true e = absurd (unsafe ((check_mknod_dev_iff d mode dev).0 e))
    by_check false e = refl

module _ (d : DevNumbers) (msg : ProxyMessageBuffer) (k : Kernel) (h : History) where
  -- `mknodat` with a mode of 32 bits, its third argument, and a device that is none of the ten safe ones is
  -- refused with EPERM, and no call is made.
  pub mknodat_refuses :
      (mode dev : ℕ)
      → get_elem? msg.seccomp_notif.call.args 2 ≡ some mode
      → get_elem? msg.seccomp_notif.call.args 3 ≡ some dev
      → mode < 2 ^ 32
      → ¬ IsSafeDevice d mode dev
      → mknodat d msg k h ≡ (ok (failed eperm), h)
  unfolding mknodat arg arg_mode_t arg_dev_t narrow
  mknodat_refuses mode dev em ed lt unsafe = ground (arith, refused d mode dev unsafe)

  -- An argument that is the descriptor -1 panics.
  pub arg_fd_panics :
      (i value flags : ℕ)
      → get_elem? msg.seccomp_notif.call.args i ≡ some value
      → value % 2 ^ 32 ≡ 2 ^ 32 - 1
      → arg_fd msg i flags k h ≡ (panic, h)
  unfolding arg_fd arg from_raw_fd
  arg_fd_panics i value flags e q = ground arith

  -- `mknodat` of an allowed device, with a mode of 32 bits, relative to the descriptor -1 panics the
  -- task of the connection, and no call is made.
  pub mknodat_panics :
      (fd mode dev : ℕ)
      → get_elem? msg.seccomp_notif.call.args 0 ≡ some fd
      → get_elem? msg.seccomp_notif.call.args 2 ≡ some mode
      → get_elem? msg.seccomp_notif.call.args 3 ≡ some dev
      → mode < 2 ^ 32
      → check_mknod_dev d mode dev ≡ true
      → fd % 2 ^ 32 ≡ 2 ^ 32 - 1
      → mknodat d msg k h ≡ (panic, h)
  unfolding mknodat arg arg_mode_t arg_dev_t narrow mknodat_allowed
  mknodat_panics fd mode dev ef em ed lt allowed q =
      ground (arith, arg_fd_panics 0 fd o_directory ef q)
