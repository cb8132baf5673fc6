-- ===== src/Frame/Child.antt =====
-- `Frames` for what a child does: src/process/user_caps.rs, and the parts of other files that it calls.
use pve_lxc_syscalld.Base.{ℕ, Bytes, Option, none, some}
use pve_lxc_syscalld.Kernel.{Action}
use pve_lxc_syscalld.NsFd
use pve_lxc_syscalld.NsFd.{NsFd}
use pve_lxc_syscalld.Capability.{Capabilities, capset}
use pve_lxc_syscalld.Capability.SecureBits
use pve_lxc_syscalld.AppArmor.{set_label}
use pve_lxc_syscalld.Process.PidFd.{PidFd, mount_namespace, enter_chroot, enter_cwd}
use pve_lxc_syscalld.Process.UserCaps.{
  UserCaps, when_some, enter_cgroup, apply_cgroups, enter_view, apply_ids, apply_user_caps, apply,
}
use pve_lxc_syscalld.SysMknod.{become}
use pve_lxc_syscalld.Frame.{Frames}
use pve_lxc_syscalld.Frame.Reads.{Frames-fd_cwd, Frames-fd_at, Frames-current}
use pve_lxc_syscalld.Frame.Rules.{Frames-pure, framing}

Frames-when_some :
    (o : Option Bytes) (f : Bytes → Action (Unit {0}))
    → ((a : Bytes) → Frames (f a))
    → Frames (when_some o f)
Frames-when_some none f p = Frames-pure tt
Frames-when_some (some a) f p = p a

Frames-enter_cgroup : (kind name : Bytes) → Frames (enter_cgroup kind name)
unfolding enter_cgroup
Frames-enter_cgroup kind name = search framing

Frames-apply_cgroups : (u : UserCaps) → Frames (apply_cgroups u)
unfolding apply_cgroups
Frames-apply_cgroups u = search (framing, Frames-when_some, Frames-enter_cgroup)

Frames-mount_namespace : (p : PidFd) → Frames (mount_namespace p)
unfolding mount_namespace NsFd.openat
Frames-mount_namespace p = search framing

Frames-setns : (n : NsFd) → Frames (NsFd.setns n)
unfolding NsFd.setns
Frames-setns n = search framing

Frames-enter_chroot : (p : PidFd) → Frames (enter_chroot p)
unfolding enter_chroot
Frames-enter_chroot p = search framing

Frames-enter_cwd : (p : PidFd) → Frames (enter_cwd p)
unfolding enter_cwd
Frames-enter_cwd p = search (framing, Frames-fd_cwd)

Frames-enter_view : (p : PidFd) → Frames (enter_view p)
unfolding enter_view
Frames-enter_view p =
    search (framing, Frames-mount_namespace, Frames-setns, Frames-enter_chroot, Frames-enter_cwd)

Frames-set_label : (p : PidFd) (label : Bytes) → Frames (set_label p label)
unfolding set_label
Frames-set_label p label = search (framing, Frames-fd_at)

Frames-get_current : Frames SecureBits.get_current
unfolding SecureBits.get_current
Frames-get_current = search framing

Frames-apply_bits : (bits : ℕ) → Frames (SecureBits.apply bits)
unfolding SecureBits.apply
Frames-apply_bits bits = search framing

Frames-apply_ids : (u : UserCaps) → Frames (apply_ids u)
unfolding apply_ids
Frames-apply_ids u = search (framing, Frames-get_current, Frames-apply_bits) depth 12

Frames-capset : (c : Capabilities) → Frames (capset c)
unfolding capset
Frames-capset c = search framing

Frames-apply_user_caps : (u : UserCaps) → Frames (apply_user_caps u)
unfolding apply_user_caps
Frames-apply_user_caps u = search (framing, Frames-apply_ids, Frames-capset)

Frames-apply : (u : UserCaps) (own : PidFd) → Frames (apply u own)
unfolding apply
Frames-apply u own = search (
  framing, Frames-apply_cgroups, Frames-enter_view, Frames-when_some, Frames-set_label,
  Frames-apply_user_caps,
)

pub Frames-become : (u : UserCaps) → Frames (become u)
unfolding become
Frames-become u = search (framing, Frames-current, Frames-apply)
