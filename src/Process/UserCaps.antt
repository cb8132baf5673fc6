-- ===== src/Process/UserCaps.antt =====
-- src/process/user_caps.rs: what a child of the daemon takes over from the calling process before it
-- makes the system call on its behalf.
use Prim.Native.Nat.{bit_or}
use pve_lxc_syscalld.Base.{
  ℕ, Bool, true, false, Bytes, codes, ◌++◌, Option, some, none, if◌then◌else◌,
}
use pve_lxc_syscalld.Kernel.{
  Action, ◌>>=◌, ◌>>◌, pure, call, c_try, c_result, write_path, umask as sys_umask, setegid,
  setfsgid, seteuid, setfsuid,
}
use pve_lxc_syscalld.Capability.{Capabilities, capset}
use pve_lxc_syscalld.Capability.SecureBits
use pve_lxc_syscalld.AppArmor.{get_label, set_label}
use pve_lxc_syscalld.NsFd
use pve_lxc_syscalld.Process.CGroups
use pve_lxc_syscalld.Process.CGroups.{CGroups}
use pve_lxc_syscalld.Process.Status.{ProcStatus}
use pve_lxc_syscalld.Process.PidFd.{
  PidFd, get_status, get_cgroups, mount_namespace, enter_chroot, enter_cwd,
}

pub record UserCaps : Type 0 where
  pub pidfd : PidFd
  pub apply_uids : Bool
  pub euid : ℕ
  pub egid : ℕ
  pub fsuid : ℕ
  pub fsgid : ℕ
  pub capabilities : Capabilities
  pub umask : ℕ
  pub cgroup_v1_devices : Option Bytes
  pub cgroup_v2_base : Bytes
  pub cgroup_v2 : Option Bytes
  pub apparmor_profile : Option Bytes

unfoldable pub user_caps_of : PidFd → ProcStatus → CGroups → Option Bytes → UserCaps
unfolding CGroups.get CGroups.has_v1
user_caps_of pidfd status cgroups profile = record {
  pidfd = pidfd;
  apply_uids = true;
  euid = status.uids.euid;
  egid = status.uids.egid;
  fsuid = status.uids.fsuid;
  fsgid = status.uids.fsgid;
  capabilities = status.capabilities;
  umask = status.umask;
  cgroup_v1_devices = CGroups.get cgroups (codes "devices");
  cgroup_v2_base = if CGroups.has_v1 cgroups then codes "unified/" else codes "";
  cgroup_v2 = cgroups.v2;
  apparmor_profile = profile;
}

-- `UserCaps::new`, which `PidFd::user_caps` calls
unfoldable pub user_caps : PidFd → Action UserCaps
unfolding user_caps_of
user_caps pidfd = do
  status ← get_status pidfd
  cgroups ← get_cgroups pidfd
  profile ← get_label pidfd
  pure (user_caps_of pidfd status cgroups profile)

unfoldable pub enter_cgroup : Bytes → Bytes → Action (Unit {0})
unfolding c_result
enter_cgroup kind name = do
  c_try (write_path (codes "/sys/fs/cgroup/" ++ kind ++ name ++ codes "/cgroup.procs") (codes "0"))
  pure tt

-- `if let Some(ref x) = o { f(x)?; }`
abbrev pub when_some {ℓ} : {A : Type ℓ} → Option A → (A → Action (Unit {0})) → Action (Unit {0})
when_some none f = pure tt
when_some (some a) f = f a

unfoldable pub apply_cgroups : UserCaps → Action (Unit {0})
unfolding enter_cgroup
apply_cgroups u = do
  when_some u.cgroup_v1_devices (enter_cgroup (codes "devices/"))
  when_some u.cgroup_v2 (enter_cgroup u.cgroup_v2_base)

unfoldable pub apply_ids : UserCaps → Action (Unit {0})
unfolding c_result
apply_ids u = do
  call (sys_umask u.umask)
  secbits ← SecureBits.get_current
  SecureBits.apply (bit_or secbits (bit_or SecureBits.keep_caps SecureBits.no_setuid_fixup))
  c_try (setegid u.egid)
  c_try (setfsgid u.fsgid)
  c_try (seteuid u.euid)
  c_try (setfsuid u.fsuid)
  pure tt

unfoldable pub apply_user_caps : UserCaps → Action (Unit {0})
unfolding apply_ids
apply_user_caps u = do if u.apply_uids then apply_ids u else pure tt; capset u.capabilities

unfoldable pub disable_uid_change : UserCaps → UserCaps
disable_uid_change u = record u { apply_uids = false }

unfoldable pub disable_cgroup_change : UserCaps → UserCaps
disable_cgroup_change u = record u { cgroup_v1_devices = none; cgroup_v2 = none }

-- The lines of `apply` between the cgroups and the AppArmor profile.
unfoldable pub enter_view : PidFd → Action (Unit {0})
unfolding mount_namespace enter_chroot enter_cwd NsFd.setns
enter_view pidfd = do ns ← mount_namespace pidfd; NsFd.setns ns; enter_chroot pidfd; enter_cwd pidfd

unfoldable pub apply : UserCaps → PidFd → Action (Unit {0})
unfolding apply_cgroups enter_view apply_user_caps
apply u own_pidfd = do
  apply_cgroups u
  enter_view u.pidfd
  when_some u.apparmor_profile (set_label own_pidfd)
  apply_user_caps u
