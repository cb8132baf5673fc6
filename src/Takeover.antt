-- ===== src/Takeover.antt =====
-- What it means that a child of the daemon has taken on the identity of the calling process, as a list
-- of system calls. user_caps.rs describes these steps in the comment on `UserCaps`.
pub mod Applied
use Prim.Native.Nat.{bit_or}
use pve_lxc_syscalld.Base.{
  ℕ, ℤ, pos, as_u64, Bool, true, false, Bytes, codes, List, [], ◌∷◌, ◌++◌, Option, none, some,
  if◌then◌else◌,
}
use pve_lxc_syscalld.Libc.{o_directory, o_cloexec, o_rdwr, clone_newns}
use pve_lxc_syscalld.Kernel.{
  Call, Kernel, History, write_path, openat, setns, fchdir, chroot, chdir, write_all,
  umask as sys_umask, get_securebits, set_securebits, setegid, setfsgid, seteuid, setfsuid,
  capset as sys_capset,
}
use pve_lxc_syscalld.Kernel.Laws.{push_all}
use pve_lxc_syscalld.Capability.{capset_data}
use pve_lxc_syscalld.Process.PidFd.{PidFd}
use pve_lxc_syscalld.Process.UserCaps.{UserCaps}

-- The descriptors and the securebits that the kernel hands out on the way; `handles_of` reads them off
-- its replies.
pub record Handles : Type 0 where
  pub mount_ns : ℤ
  pub cwd : ℤ
  pub label : ℤ
  pub securebits : ℕ

abbrev pub cgroup_call : Bytes → Bytes → Call
cgroup_call kind name =
    write_path (codes "/sys/fs/cgroup/" ++ kind ++ name ++ codes "/cgroup.procs") (codes "0")

abbrev pub optional_cgroup : Bytes → Option Bytes → List Call
optional_cgroup kind none = []
optional_cgroup kind (some name) = cgroup_call kind name ∷ []

-- The devices cgroup and the v2 cgroup.
abbrev pub cgroup_calls : UserCaps → List Call
cgroup_calls u =
    optional_cgroup (codes "devices/") u.cgroup_v1_devices
    ++ optional_cgroup u.cgroup_v2_base u.cgroup_v2

-- The mount namespace, the root and the working directory.
abbrev pub view_calls : PidFd → Handles → List Call
view_calls p f =
    openat p.fd (codes "ns/mnt") o_cloexec 0
    ∷ setns f.mount_ns clone_newns
    ∷ fchdir p.fd
    ∷ chroot (codes "root")
    ∷ chdir (codes "/")
    ∷ openat p.fd (codes "cwd") (bit_or o_directory o_cloexec) 0
    ∷ fchdir f.cwd
    ∷ []

-- The AppArmor profile, if the process has one.
abbrev pub label_calls : Option Bytes → PidFd → ℤ → List Call
label_calls none own fd = []
label_calls (some label) own fd =
    openat own.fd (codes "attr/current") (bit_or o_rdwr o_cloexec) 0
    ∷ write_all fd (codes "changeprofile " ++ label)
    ∷ []

-- The umask, and the ids with the securebits by which changing them leaves the capabilities alone.
abbrev pub id_calls : UserCaps → Handles → List Call
id_calls u f =
    sys_umask u.umask
    ∷ get_securebits
    ∷ set_securebits (bit_or f.securebits 0x14)
    ∷ setegid u.egid
    ∷ setfsgid u.fsgid
    ∷ seteuid u.euid
    ∷ setfsuid u.fsuid
    ∷ []

-- The capability sets come last.
abbrev pub capset_call : UserCaps → Call
capset_call u = sys_capset 0x20080522 (pos 0) (capset_data u.capabilities)

abbrev pub takeover : UserCaps → PidFd → Handles → List Call
takeover u own f =
    cgroup_calls u
    ++ (view_calls u.pidfd f
        ++ (label_calls u.apparmor_profile own f.label ++ (id_calls u f ++ capset_call u ∷ [])))

-- The handles of the takeover that begins at a history.
abbrev pub mount_ns_of : Kernel → PidFd → History → ℤ
mount_ns_of k p h = (k.reply h (openat p.fd (codes "ns/mnt") o_cloexec 0)).res

abbrev pub cwd_of : Kernel → PidFd → ℤ → History → ℤ
cwd_of k p ns h =
    let before =
      chdir (codes "/")
      ∷ chroot (codes "root")
      ∷ fchdir p.fd
      ∷ setns ns clone_newns
      ∷ openat p.fd (codes "ns/mnt") o_cloexec 0
      ∷ h in
    (k.reply before (openat p.fd (codes "cwd") (bit_or o_directory o_cloexec) 0)).res

abbrev pub label_of : Kernel → PidFd → History → ℤ
label_of k own h =
    (k.reply h (openat own.fd (codes "attr/current") (bit_or o_rdwr o_cloexec) 0)).res

abbrev pub securebits_of : Kernel → UserCaps → History → ℕ
securebits_of k u h = as_u64 (k.reply (sys_umask u.umask ∷ h) get_securebits).res

abbrev pub handles_of : Kernel → UserCaps → PidFd → History → Handles
handles_of k u own h =
    let h1 = push_all (cgroup_calls u) h in
    let ns = mount_ns_of k u.pidfd h1 in
    let dir = cwd_of k u.pidfd ns h1 in
    let f0 : Handles = record { mount_ns = ns; cwd = dir; label = pos 0; securebits = 0 } in
    let h2 = push_all (view_calls u.pidfd f0) h1 in
    let f1 = record f0 { label = label_of k own h2 } in
    let h3 = push_all (label_calls u.apparmor_profile own f1.label) h2 in
    record f1 { securebits = securebits_of k u h3 }
