-- ===== src/Tests/Mapped.antt =====
-- A quota of an id of a container.
use pve_lxc_syscalld.Base.{
  refl, arith, ℕ, pos, Bytes, codes, bytes_eq, [], ◌∷◌, ◌++◌, ok, some, none, inl, ◌≡◌, ap, sym,
  ◌∙◌, List, if◌then◌else◌,
}
use pve_lxc_syscalld.Kernel.{Call, History, Reply, Kernel, read_file, openat}
use pve_lxc_syscalld.LxcSeccomp.{ProxyMessageBuffer}
use pve_lxc_syscalld.Libc.{usrquota}
use pve_lxc_syscalld.Process.IdMap.{IdMap}
use pve_lxc_syscalld.Process.IdMap.RoundTrip.{IsMap}
use pve_lxc_syscalld.Process.PidFd.{PidFd}
use pve_lxc_syscalld.SysQuotactl
use pve_lxc_syscalld.SysQuotactl.Mapped.{
  ShowsMaps, AsksMapped, map_of, of_getquota, handler, quotas_ask_mapped,
}
use pve_lxc_syscalld.Syscall.{done}
use pve_lxc_syscalld.Tests.Replies.{plain, in_proc, caller, fresh}

-- `quotactl(QCMD(Q_GETQUOTA, USRQUOTA), "...", 33, addr)`
abbrev asking_for_quota : ProxyMessageBuffer
asking_for_quota = record fresh {
  seccomp_notif = record (fresh.seccomp_notif) {
    call = record (fresh.seccomp_notif.call) { args = 0x80000700 ∷ 16 ∷ 33 ∷ 4096 ∷ 0 ∷ 0 ∷ [] };
  };
  pid_fd = some caller;
  mem_fd = some (pos 11);
}

-- The files of a process of an unprivileged container.
abbrev with_map : Call → History → Reply
with_map (read_file fd) (openat dir path flags mode ∷ h) =
    if bytes_eq path (codes "uid_map")
    then plain 5 (codes "0 100000 65536" ++ 10 ∷ [])
    else in_proc (read_file fd) (openat dir path flags mode ∷ h)
with_map c h = in_proc c h

abbrev unprivileged : Kernel
unprivileged = record { reply = λ h c. with_map c h; rounds = 2; flags_from_bits = λ n. some n }

abbrev shown : IdMap
shown = record { ns = 0; host = 100000; range = 65536 } ∷ []

shown-IsMap : IsMap shown
shown-IsMap =
    (record { ns_fits = omega arith; host_fits = omega arith; range_fits = omega arith }, tt, tt)

map_read :
    (p : PidFd) (h : History)
    → map_of usrquota p unprivileged h ≡ (ok shown, (map_of usrquota p unprivileged h).1)
unfolding pve_lxc_syscalld.Process.PidFd.get_uid_map pve_lxc_syscalld.Process.Text.split_lines
    pve_lxc_syscalld.Process.Text.text_line pve_lxc_syscalld.Process.Text.split_ascii_whitespace
    pve_lxc_syscalld.Process.Text.from_str_radix pve_lxc_syscalld.Process.Status.map_lines
map_read p h = refl

shows : ShowsMaps usrquota unprivileged
shows p h h' m e =
    let q : ok shown ≡ ok m = ap (λ x. x.0) (sym (map_read p h) ∙ e) in
    let r : shown ≡ m = ground (arith, q) in rw (← r) shown-IsMap

abbrev got : History
got =
    (SysQuotactl.q_getquota asking_for_quota (pos 0x80000700) (some (codes "/dev/x")) usrquota
      unprivileged []).1

quota_got :
    handler of_getquota asking_for_quota
      (pos 0x80000700)
      (some (codes "/dev/x"))
      usrquota
      unprivileged
      []
    ≡ (ok (done (pos 0)), got)
unfolding SysQuotactl.q_getquota pve_lxc_syscalld.Seccomp.decode_notif pve_lxc_syscalld.Base.words
    pve_lxc_syscalld.Base.le_value pve_lxc_syscalld.Seccomp.encode_notif
    pve_lxc_syscalld.Base.unwords pve_lxc_syscalld.Base.le_bytes pve_lxc_syscalld.LxcSeccomp.new
    pve_lxc_syscalld.Process.PidFd.fd_num pve_lxc_syscalld.Syscall.get_c_string
    pve_lxc_syscalld.Process.PidFd.get_status pve_lxc_syscalld.Process.Status.status_lines
    pve_lxc_syscalld.Process.Text.split_lines pve_lxc_syscalld.Process.Text.text_line
    pve_lxc_syscalld.Process.Status.status_line pve_lxc_syscalld.Process.Text.split_ascii_whitespace
    pve_lxc_syscalld.Process.Text.from_str_radix pve_lxc_syscalld.Process.PidFd.get_uid_map
    pve_lxc_syscalld.Process.Status.map_lines pve_lxc_syscalld.Process.IdMap.map_from
    pve_lxc_syscalld.Process.PidFd.get_cgroups pve_lxc_syscalld.Process.CGroups.read_lines
    pve_lxc_syscalld.Process.CGroups.read_line pve_lxc_syscalld.AppArmor.get_label
    pve_lxc_syscalld.Process.CGroups.empty pve_lxc_syscalld.NsFd.openat
    pve_lxc_syscalld.AppArmor.set_label pve_lxc_syscalld.Capability.SecureBits.get_current
    pve_lxc_syscalld.Capability.SecureBits.apply pve_lxc_syscalld.Capability.capset
quota_got = refl

quotas_ask_mapped_example :
    AsksMapped asking_for_quota usrquota unprivileged (pos 0x80000700) (done (pos 0)) got
quotas_ask_mapped_example =
    quotas_ask_mapped of_getquota asking_for_quota (pos 0x80000700) usrquota (some (codes "/dev/x"))
      unprivileged [] got (done (pos 0)) shows (inl refl) (ground arith) quota_got
