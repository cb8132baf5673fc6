-- ===== src/Tests/Arguments.antt =====
-- Arguments, ids and strings.
use pve_lxc_syscalld.Base.{
  ℕ, ◌≡◌, ◌↔◌, refl, ok, err, nix, some, panic, true, [], ◌∷◌, negsuc, arith, List,
}
use pve_lxc_syscalld.Libc.{eperm, erange}
use pve_lxc_syscalld.Process.IdMap.{IdMap, map_from, map_into}
use pve_lxc_syscalld.Process.IdMap.RoundTrip.{IsMap, MapsBy, map_iff}
use pve_lxc_syscalld.LxcSeccomp.{ProxyMessageBuffer}
use pve_lxc_syscalld.Syscall.{failed}
use pve_lxc_syscalld.SysMknod.{mknodat, check_mknod_dev}
use pve_lxc_syscalld.SysMknod.Refusal.{
  IsSafeDevice, check_mknod_dev_iff, mknodat_refuses, mknodat_panics,
}
use pve_lxc_syscalld.SysQuotactl.{map_id}
use pve_lxc_syscalld.SysQuotactl.Ids.{map_id_negative}
use pve_lxc_syscalld.Tests.Replies.{linux_numbers, willing, fresh}

-- the message buffer with these arguments
abbrev asking : List ℕ → ProxyMessageBuffer
asking args = record fresh {
  seccomp_notif = record (fresh.seccomp_notif) {
    call = record (fresh.seccomp_notif.call) { args = args };
  };
}

-- a block device
abbrev disk : ProxyMessageBuffer
disk = asking (16 ∷ 0x61b6 ∷ 0x800 ∷ 0 ∷ 0 ∷ 0 ∷ [])

disk_unsafe : ¬ IsSafeDevice linux_numbers 0x61b6 0x800
disk_unsafe safe = ground (arith, safe)

abbrev disk_at : ProxyMessageBuffer
disk_at = asking (7 ∷ 16 ∷ 0x61b6 ∷ 0x800 ∷ 0 ∷ 0 ∷ [])

mknodat_refuses_example : mknodat linux_numbers disk_at willing [] ≡ (ok (failed eperm), [])
mknodat_refuses_example =
    mknodat_refuses linux_numbers disk_at willing [] 0x61b6 0x800 refl refl (omega arith)
      disk_unsafe

-- /dev/null, relative to the descriptor -1
abbrev null_at_nowhere : ProxyMessageBuffer
null_at_nowhere = asking (0xffffffff ∷ 16 ∷ 0x21b6 ∷ 0x103 ∷ 0 ∷ 0 ∷ [])

null_allowed : check_mknod_dev linux_numbers 0x21b6 0x103 ≡ true
unfolding check_mknod_dev
null_allowed = refl

check_mknod_dev_iff_example :
    (check_mknod_dev linux_numbers 0x21b6 0x103 ≡ true) ↔ IsSafeDevice linux_numbers 0x21b6 0x103
check_mknod_dev_iff_example = check_mknod_dev_iff linux_numbers 0x21b6 0x103

mknodat_panics_example : mknodat linux_numbers null_at_nowhere willing [] ≡ (panic, [])
mknodat_panics_example =
    mknodat_panics linux_numbers null_at_nowhere willing [] 0xffffffff 0x21b6 0x103 refl refl refl
      (omega arith) null_allowed refl

-- the map of an unprivileged container
abbrev shifted : IdMap
shifted = record { ns = 0; host = 100000; range = 65536 } ∷ []

shifted-IsMap : IsMap shifted
shifted-IsMap =
    (record { ns_fits = omega arith; host_fits = omega arith; range_fits = omega arith }, tt, tt)

map_iff_example :
    ((map_from shifted 33 ≡ some 100033) ↔ MapsBy 33 100033 shifted)
    × ((map_into shifted 100033 ≡ some 33) ↔ MapsBy 33 100033 shifted)
map_iff_example = map_iff shifted 33 100033 shifted-IsMap

map_id_negative_example : map_id shifted (negsuc 0) willing [] ≡ (err (nix erange), [])
map_id_negative_example = map_id_negative shifted 0 willing [] shifted-IsMap (omega arith)
