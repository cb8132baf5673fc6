-- ===== src/Guard/Child.antt =====
-- `Keeps` for what a child does: src/process/user_caps.rs, and the parts of other files that it calls.
use pve_lxc_syscalld.Base.{ℕ, ℤ, true, Bytes, List, Option, none, some, ok, ◌≡◌}
use pve_lxc_syscalld.Kernel.{
  Action, Kernel, History, pwrite, write_all, write_path, setns, fchdir, chroot, chdir, umask,
  set_securebits, setegid, setfsgid, seteuid, setfsuid, capset as sys_capset, write_pipe,
}
use pve_lxc_syscalld.Kernel.Laws.{bind_ok}
use pve_lxc_syscalld.NsFd
use pve_lxc_syscalld.NsFd.{NsFd}
use pve_lxc_syscalld.Capability.{Capabilities, capset}
use pve_lxc_syscalld.Capability.SecureBits
use pve_lxc_syscalld.AppArmor.{set_label}
use pve_lxc_syscalld.Process.PidFd.{PidFd, current, mount_namespace, enter_chroot, enter_cwd}
use pve_lxc_syscalld.Process.UserCaps.{
  UserCaps, when_some, enter_cgroup, apply_cgroups, enter_view, apply_ids, apply_user_caps, apply,
}
use pve_lxc_syscalld.SysMknod.{DevNumbers, become}
use pve_lxc_syscalld.Takeover.{handles_of}
use pve_lxc_syscalld.Takeover.Applied.{apply_makes_takeover}
use pve_lxc_syscalld.Guard.{Keeps, Entered, IsRead}
use pve_lxc_syscalld.Guard.Rules.{Keeps-pure, Allows}
use pve_lxc_syscalld.Guard.Reads.{reading, Keeps-fd_at, Keeps-fd_cwd, Keeps-current}

module _ (d : DevNumbers) (k : Kernel) where
  Allows-write_all : (fd : ℤ) (content : Bytes) → Allows d k true (write_all fd content)
  Allows-write_all fd content h w = ((w.1, w.0), w.1)

  Allows-write_path : (path content : Bytes) → Allows d k true (write_path path content)
  Allows-write_path path content h w = ((w.1, w.0), w.1)

  Allows-setns : (fd : ℤ) (t : ℕ) → Allows d k true (setns fd t)
  Allows-setns fd t h w = ((w.1, w.0), w.1)

  Allows-fchdir : (fd : ℤ) → Allows d k true (fchdir fd)
  Allows-fchdir fd h w = ((w.1, w.0), w.1)

  Allows-chroot : (path : Bytes) → Allows d k true (chroot path)
  Allows-chroot path h w = ((w.1, w.0), w.1)

  Allows-chdir : (path : Bytes) → Allows d k true (chdir path)
  Allows-chdir path h w = ((w.1, w.0), w.1)

  Allows-umask : (m : ℕ) → Allows d k true (umask m)
  Allows-umask m h w = ((w.1, w.0), w.1)

  Allows-set_securebits : (bits : ℕ) → Allows d k true (set_securebits bits)
  Allows-set_securebits bits h w = ((w.1, w.0), w.1)

  Allows-setegid : (id : ℕ) → Allows d k true (setegid id)
  Allows-setegid id h w = ((w.1, w.0), w.1)

  Allows-setfsgid : (id : ℕ) → Allows d k true (setfsgid id)
  Allows-setfsgid id h w = ((w.1, w.0), w.1)

  Allows-seteuid : (id : ℕ) → Allows d k true (seteuid id)
  Allows-seteuid id h w = ((w.1, w.0), w.1)

  Allows-setfsuid : (id : ℕ) → Allows d k true (setfsuid id)
  Allows-setfsuid id h w = ((w.1, w.0), w.1)

  Allows-capset :
      (v : ℕ) (pid : ℤ) (sets : List (ℕ × ℕ × ℕ)) → Allows d k true (sys_capset v pid sets)
  Allows-capset v pid sets h w = ((w.1, w.0), w.1)

  pub Allows-pwrite :
      (fd : ℤ) (content : Bytes) (offset : ℕ) → Allows d k true (pwrite fd content offset)
  Allows-pwrite fd content offset h w = ((w.1, w.0), w.1)

  pub Allows-write_pipe : (content : Bytes) → Allows d k true (write_pipe content)
  Allows-write_pipe content h w = ((w.1, w.0), w.1)

ruleset changing = (
  reading, Allows-write_all, Allows-write_path, Allows-setns, Allows-fchdir, Allows-chroot,
  Allows-chdir, Allows-umask, Allows-set_securebits, Allows-setegid, Allows-setfsgid,
  Allows-seteuid, Allows-setfsuid, Allows-capset,
)

module _ (d : DevNumbers) (k : Kernel) where
  Keeps-when_some :
      (o : Option Bytes) (f : Bytes → Action (Unit {0}))
      → ((a : Bytes) → Keeps d k true (f a))
      → Keeps d k true (when_some o f)
  Keeps-when_some none f p = Keeps-pure d k true tt
  Keeps-when_some (some a) f p = p a

  Keeps-enter_cgroup : (kind name : Bytes) → Keeps d k true (enter_cgroup kind name)
  unfolding enter_cgroup
  Keeps-enter_cgroup kind name = search changing

  Keeps-apply_cgroups : (u : UserCaps) → Keeps d k true (apply_cgroups u)
  unfolding apply_cgroups
  Keeps-apply_cgroups u = search (changing, Keeps-when_some, Keeps-enter_cgroup)

  Keeps-mount_namespace : (p : PidFd) → Keeps d k true (mount_namespace p)
  unfolding mount_namespace NsFd.openat
  Keeps-mount_namespace p = search changing

  Keeps-setns : (n : NsFd) → Keeps d k true (NsFd.setns n)
  unfolding NsFd.setns
  Keeps-setns n = search changing

  Keeps-enter_chroot : (p : PidFd) → Keeps d k true (enter_chroot p)
  unfolding enter_chroot
  Keeps-enter_chroot p = search changing

  Keeps-enter_cwd : (p : PidFd) → Keeps d k true (enter_cwd p)
  unfolding enter_cwd
  Keeps-enter_cwd p = search (changing, Keeps-fd_cwd)

  Keeps-enter_view : (p : PidFd) → Keeps d k true (enter_view p)
  unfolding enter_view
  Keeps-enter_view p =
      search (changing, Keeps-mount_namespace, Keeps-setns, Keeps-enter_chroot, Keeps-enter_cwd)

  Keeps-set_label : (p : PidFd) (label : Bytes) → Keeps d k true (set_label p label)
  unfolding set_label
  Keeps-set_label p label = search (changing, Keeps-fd_at)

  Keeps-get_current : Keeps d k true SecureBits.get_current
  unfolding SecureBits.get_current
  Keeps-get_current = search changing

  Keeps-apply_bits : (bits : ℕ) → Keeps d k true (SecureBits.apply bits)
  unfolding SecureBits.apply
  Keeps-apply_bits bits = search changing

  Keeps-apply_ids : (u : UserCaps) → Keeps d k true (apply_ids u)
  unfolding apply_ids
  Keeps-apply_ids u = search (changing, Keeps-get_current, Keeps-apply_bits) depth 12

  Keeps-capset : (c : Capabilities) → Keeps d k true (capset c)
  unfolding capset
  Keeps-capset c = search changing

  Keeps-apply_user_caps : (u : UserCaps) → Keeps d k true (apply_user_caps u)
  unfolding apply_user_caps
  Keeps-apply_user_caps u = search (changing, Keeps-apply_ids, Keeps-capset)

  Keeps-apply : (u : UserCaps) (own : PidFd) → Keeps d k true (apply u own)
  unfolding apply
  Keeps-apply u own = search (
    changing, Keeps-apply_cgroups, Keeps-enter_view, Keeps-when_some, Keeps-set_label,
    Keeps-apply_user_caps,
  )

  pub Keeps-become : (u : UserCaps) → Keeps d k true (become u)
  unfolding become
  Keeps-become u = search (changing, Keeps-current, Keeps-apply)

-- After `become` the child has taken over.
pub become-Entered :
    (k : Kernel) (h h' : History) (u : UserCaps)
    → u.apply_uids ≡ true
    → IsRead k u
    → become u k h ≡ (ok tt, h')
    → Entered k h'
unfolding become
become-Entered k h h' u t read e =
    let (own, h1, e1, e2) = bind_ok current (λ own. apply u own) k h e in
    (u, own, handles_of k u own h1, h1, read, t, apply_makes_takeover k h1 u own t h' e2)
