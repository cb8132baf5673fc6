-- ===== src/Takeover/Applied.antt =====
-- The calls of `UserCaps::apply` in src/process/user_caps.rs, part by part.
use pve_lxc_syscalld.Base.{
  ℤ, true, Bytes, codes, [], ◌∷◌, ◌++◌, Option, none, some, if◌then◌else◌, ok, ◌≡◌, refl, arith,
}
use pve_lxc_syscalld.Kernel.{Kernel, History, pure, c_result}
use pve_lxc_syscalld.Kernel.Laws.{push_all, Makes, Makes-seq}
use pve_lxc_syscalld.Capability.{capset}
use pve_lxc_syscalld.Capability.SecureBits
use pve_lxc_syscalld.AppArmor.{set_label}
use pve_lxc_syscalld.NsFd
use pve_lxc_syscalld.NsFd.{mount, NsFd}
use pve_lxc_syscalld.Process.PidFd.{PidFd, mount_namespace, enter_chroot, enter_cwd}
use pve_lxc_syscalld.Process.UserCaps.{
  UserCaps, when_some, enter_cgroup, enter_view, apply_cgroups, apply_ids, apply_user_caps, apply,
}
use pve_lxc_syscalld.Takeover.{
  Handles, optional_cgroup, cgroup_calls, view_calls, label_calls, id_calls, capset_call, takeover,
  mount_ns_of, cwd_of, label_of, securebits_of, handles_of,
}

module _ (k : Kernel) (h : History) where
  cgroup-Makes :
      (kind : Bytes) (o : Option Bytes)
      → Makes k h (when_some o (enter_cgroup kind)) (optional_cgroup kind o)
  unfolding enter_cgroup
  cgroup-Makes kind none h' e = ground arith
  cgroup-Makes kind (some name) h' e = ground arith

  label-Makes :
      (o : Option Bytes) (own : PidFd) (fd : ℤ)
      → fd ≡ label_of k own h
      → Makes k h (when_some o (set_label own)) (label_calls o own fd)
  unfolding set_label
  label-Makes none own fd q h' e = ground arith
  label-Makes (some l) own fd q h' e = ground arith

  ids-Makes :
      (u : UserCaps) (f : Handles)
      → f.securebits ≡ securebits_of k u h
      → Makes k h (apply_ids u) (id_calls u f)
  unfolding apply_ids SecureBits.get_current SecureBits.apply
  ids-Makes u f q h' e = ground arith

  capset-Makes : (u : UserCaps) → Makes k h (capset u.capabilities) (capset_call u ∷ [])
  unfolding capset c_result
  capset-Makes u h' e = ground arith

  view-Makes :
      (p : PidFd) (f : Handles)
      → f.mount_ns ≡ mount_ns_of k p h
      → f.cwd ≡ cwd_of k p f.mount_ns h
      → Makes k h (enter_view p) (view_calls p f)
  unfolding enter_view mount_namespace NsFd.openat NsFd.setns enter_chroot enter_cwd c_result
  view-Makes p f q r h' e = ground arith

user_caps-Makes :
    (k : Kernel) (h : History) (u : UserCaps) (f : Handles)
    → u.apply_uids ≡ true
    → f.securebits ≡ securebits_of k u h
    → Makes k h (apply_user_caps u) (id_calls u f ++ capset_call u ∷ [])
unfolding apply_user_caps
user_caps-Makes k h u f t q =
    Makes-seq k h (if u.apply_uids then apply_ids u else pure tt) (capset u.capabilities)
      (id_calls u f) (capset_call u ∷ []) (rw t (ids-Makes k h u f q))
      (capset-Makes k (push_all (id_calls u f) h) u)

cgroups_make :
    (k : Kernel) (h : History) (u : UserCaps) → Makes k h (apply_cgroups u) (cgroup_calls u)
unfolding apply_cgroups
cgroups_make k h u =
    let devices = optional_cgroup (codes "devices/") u.cgroup_v1_devices in
    Makes-seq k h (when_some u.cgroup_v1_devices (enter_cgroup (codes "devices/")))
      (when_some u.cgroup_v2 (enter_cgroup u.cgroup_v2_base)) devices
      (optional_cgroup u.cgroup_v2_base u.cgroup_v2)
      (cgroup-Makes k h (codes "devices/") u.cgroup_v1_devices)
      (cgroup-Makes k (push_all devices h) u.cgroup_v2_base u.cgroup_v2)

-- If `apply` succeeds on capabilities with their ids, whatever the kernel replies, then it has made
-- exactly the calls of the takeover, in that order, with the descriptors that the kernel returned.
pub apply_makes_takeover :
    (k : Kernel) (h : History) (u : UserCaps) (own : PidFd)
    → u.apply_uids ≡ true
    → (h' : History) → apply u own k h ≡ (ok tt, h')
    → h' ≡ push_all (takeover u own (handles_of k u own h)) h
unfolding apply
apply_makes_takeover k h u own t =
    let f = handles_of k u own h in
    let h1 = push_all (cgroup_calls u) h in
    let h2 = push_all (view_calls u.pidfd f) h1 in
    let label = label_calls u.apparmor_profile own f.label in
    let ids = id_calls u f ++ capset_call u ∷ [] in
    Makes-seq k h (apply_cgroups u) _ (cgroup_calls u) (view_calls u.pidfd f ++ (label ++ ids))
      (cgroups_make k h u)
      (Makes-seq k h1 (enter_view u.pidfd) _ (view_calls u.pidfd f) (label ++ ids)
        (view-Makes k h1 u.pidfd f refl refl)
        (Makes-seq k h2 (when_some u.apparmor_profile (set_label own)) (apply_user_caps u) label ids
          (label-Makes k h2 u.apparmor_profile own f.label refl)
          (user_caps-Makes k (push_all label h2) u f t refl)))
