-- ===== src/Tests/Quota.antt =====
-- `quotactl` for a container's process.
use pve_lxc_syscalld.Base.{
  refl, arith, ℕ, ℤ, pos, Bytes, [], ◌∷◌, ◌++◌, replicate, ok, length, some, none, minus_one, ◌≡◌,
}
use pve_lxc_syscalld.Kernel.{Call, History, Reply, pwrite, Kernel, ◌>>◌}
use pve_lxc_syscalld.LxcSeccomp.{ProxyMessageBuffer, scatter}
use pve_lxc_syscalld.LxcSeccomp.Args.{arg_int}
use pve_lxc_syscalld.SysQuotactl
use pve_lxc_syscalld.SysQuotactl.AsCaller.{Body, fetches, IsAsCaller, quotactl-IsAsCaller}
use pve_lxc_syscalld.SysQuotactl.Child.{Makes, child-Makes}
use pve_lxc_syscalld.SysMknod.{become}
use pve_lxc_syscalld.SysMknod.AsCaller.{taken_over}
use pve_lxc_syscalld.Syscall.{done}
use pve_lxc_syscalld.Tests.Replies.{container, plain, in_proc, caller, caller_caps, fresh}

-- `quotactl(QCMD(Q_GETFMT, USRQUOTA), "...", 0, addr)`
abbrev packet : Bytes
packet =
    replicate 8 0
    ++ (3 ∷ 0 ∷ 0 ∷ 0 ∷ 4 ∷ 0 ∷ 0 ∷ 0 ∷ [])
    ++ (80 ∷ 0 ∷ 24 ∷ 0 ∷ 64 ∷ 0 ∷ 0 ∷ 0 ∷ [])
    ++ (2 ∷ 0 ∷ 0 ∷ 0 ∷ 0 ∷ 0 ∷ 0 ∷ 0 ∷ [])
    ++ (9 ∷ 0 ∷ 0 ∷ 0 ∷ 0 ∷ 0 ∷ 0 ∷ 0 ∷ 6 ∷ 0 ∷ 0 ∷ 0 ∷ 0 ∷ 0 ∷ 0 ∷ 0 ∷ [])
    ++ (179 ∷ 0 ∷ 0 ∷ 0 ∷ 0x3e ∷ 0 ∷ 0 ∷ 0xc0 ∷ 0 ∷ 0 ∷ 0 ∷ 0 ∷ 0 ∷ 0 ∷ 0 ∷ 0 ∷ [])
    ++ (0 ∷ 4 ∷ 0 ∷ 128 ∷ 0 ∷ 0 ∷ 0 ∷ 0 ∷ 16 ∷ 0 ∷ 0 ∷ 0 ∷ 0 ∷ 0 ∷ 0 ∷ 0 ∷ [])
    ++ (0 ∷ 0 ∷ 0 ∷ 0 ∷ 0 ∷ 0 ∷ 0 ∷ 0 ∷ 0 ∷ 16 ∷ 0 ∷ 0 ∷ 0 ∷ 0 ∷ 0 ∷ 0 ∷ [])
    ++ replicate 40 0
    ++ (0x61 ∷ 0x62 ∷ [])

abbrev request : ProxyMessageBuffer
request = record (scatter fresh packet) { pid_fd = some caller; mem_fd = some (pos 11) }

answered :
    SysQuotactl.quotactl request container []
    ≡ (ok (done (pos 0)), (SysQuotactl.quotactl request container []).1)
unfolding SysQuotactl.quotactl scatter pve_lxc_syscalld.Seccomp.decode_notif
    pve_lxc_syscalld.Base.words pve_lxc_syscalld.Base.le_value pve_lxc_syscalld.Seccomp.encode_notif
    pve_lxc_syscalld.Base.unwords pve_lxc_syscalld.Base.le_bytes pve_lxc_syscalld.LxcSeccomp.new
    pve_lxc_syscalld.Process.PidFd.fd_num pve_lxc_syscalld.Syscall.get_c_string
    pve_lxc_syscalld.Process.PidFd.get_status pve_lxc_syscalld.Process.Status.status_lines
    pve_lxc_syscalld.Process.Text.split_lines pve_lxc_syscalld.Process.Text.text_line
    pve_lxc_syscalld.Process.Status.status_line pve_lxc_syscalld.Process.Text.split_ascii_whitespace
    pve_lxc_syscalld.Process.Text.from_str_radix pve_lxc_syscalld.Process.PidFd.get_cgroups
    pve_lxc_syscalld.Process.CGroups.read_lines pve_lxc_syscalld.Process.CGroups.read_line
    pve_lxc_syscalld.AppArmor.get_label pve_lxc_syscalld.Process.CGroups.empty
    pve_lxc_syscalld.NsFd.openat pve_lxc_syscalld.AppArmor.set_label
    pve_lxc_syscalld.Capability.SecureBits.get_current pve_lxc_syscalld.Capability.SecureBits.apply
    pve_lxc_syscalld.Capability.capset
answered = refl

quotactl-IsAsCaller_example :
    (cmd : ℤ) × (arg_int request 0 ≡ ok cmd)
    × IsAsCaller request cmd container (done (pos 0)) (SysQuotactl.quotactl request container []).1
quotactl-IsAsCaller_example =
    quotactl-IsAsCaller request container [] (SysQuotactl.quotactl request container []).1
      (done (pos 0)) (ground arith) (ground arith) answered

-- The kernel writes all that it is given.
abbrev in_full : Call → History → Reply
in_full (pwrite fd content offset) h = plain (length content) []
in_full c h = in_proc c h

abbrev writing : Kernel
writing = record { reply = λ h c. in_full c h; rounds = 2; flags_from_bits = λ n. some n }

-- Four bytes for the caller, of a command that this kernel takes.
abbrev fetching : Body request minus_one (SysQuotactl.fetch request minus_one none (pos 0) 4096 4)
fetching = fetches none (pos 0) 4096 4

fetched :
    (become caller_caps >> SysQuotactl.fetch request minus_one none (pos 0) 4096 4) writing [] ≡ (
      ok (done (pos 0)),
      ((become caller_caps >> SysQuotactl.fetch request minus_one none (pos 0) 4096 4) writing
          []).1,
    )
unfolding become SysQuotactl.fetch pve_lxc_syscalld.NsFd.openat pve_lxc_syscalld.AppArmor.set_label
    pve_lxc_syscalld.Capability.SecureBits.get_current pve_lxc_syscalld.Capability.SecureBits.apply
    pve_lxc_syscalld.Capability.capset
fetched = refl

child-Makes_example :
    Makes request minus_one fetching writing
      (taken_over writing caller_caps [])
      (done (pos 0))
      ((become caller_caps >> SysQuotactl.fetch request minus_one none (pos 0) 4096 4) writing []).1
child-Makes_example =
    child-Makes request minus_one fetching caller_caps writing []
      ((become caller_caps >> SysQuotactl.fetch request minus_one none (pos 0) 4096 4) writing []).1
      (done (pos 0)) refl fetched
