-- ===== src/Tests/Replies.antt =====
-- A kernel that lets every call succeed, with one message from a monitor: `mknodat` of /dev/null.
use pve_lxc_syscalld.Base.{
  if◌then◌else◌, bytes_eq, ◌+◌, true, ◌^◌, ℕ, ◌/◌, ◌%◌, pos, Bytes, codes, [], ◌∷◌, ◌++◌, replicate,
  none, some,
}
use pve_lxc_syscalld.Kernel.{
  close, readable, History, openat, Call, Reply, Kernel, read_file, pread, read_pipe, recvmsg,
  sendmsg, get_securebits,
}
use pve_lxc_syscalld.Process.PidFd.{PidFd}
use pve_lxc_syscalld.Process.UserCaps.{UserCaps}
use pve_lxc_syscalld.Seccomp.{SeccompNotifSizes}
use pve_lxc_syscalld.LxcSeccomp.{ProxyMessageBuffer, new}
use pve_lxc_syscalld.SysMknod.{DevNumbers}

abbrev pub linux_numbers : DevNumbers
linux_numbers = record { major = λ dev. dev / 256; minor = λ dev. dev % 256 }

abbrev pub kernel_sizes : SeccompNotifSizes
kernel_sizes = record { notif = 80; notif_resp = 24; call = 64 }

abbrev pub fresh : ProxyMessageBuffer
fresh = new kernel_sizes (replicate 64 0)

-- `mknodat(7, "...", S_IFCHR | 0666, makedev(1, 3))` on x86_64, with id 9, and a cookie of two bytes
abbrev pub packet : Bytes
packet =
    replicate 8 0
    ++ (3 ∷ 0 ∷ 0 ∷ 0 ∷ 4 ∷ 0 ∷ 0 ∷ 0 ∷ [])
    ++ (80 ∷ 0 ∷ 24 ∷ 0 ∷ 64 ∷ 0 ∷ 0 ∷ 0 ∷ [])
    ++ (2 ∷ 0 ∷ 0 ∷ 0 ∷ 0 ∷ 0 ∷ 0 ∷ 0 ∷ [])
    ++ (9 ∷ 0 ∷ 0 ∷ 0 ∷ 0 ∷ 0 ∷ 0 ∷ 0 ∷ 6 ∷ 0 ∷ 0 ∷ 0 ∷ 0 ∷ 0 ∷ 0 ∷ 0 ∷ [])
    ++ (3 ∷ 1 ∷ 0 ∷ 0 ∷ 0x3e ∷ 0 ∷ 0 ∷ 0xc0 ∷ 0 ∷ 0 ∷ 0 ∷ 0 ∷ 0 ∷ 0 ∷ 0 ∷ 0 ∷ [])
    ++ (7 ∷ 0 ∷ 0 ∷ 0 ∷ 0 ∷ 0 ∷ 0 ∷ 0 ∷ 16 ∷ 0 ∷ 0 ∷ 0 ∷ 0 ∷ 0 ∷ 0 ∷ 0 ∷ [])
    ++ (0xb6 ∷ 0x21 ∷ 0 ∷ 0 ∷ 0 ∷ 0 ∷ 0 ∷ 0 ∷ 3 ∷ 1 ∷ 0 ∷ 0 ∷ 0 ∷ 0 ∷ 0 ∷ 0 ∷ [])
    ++ replicate 40 0
    ++ (0x61 ∷ 0x62 ∷ [])

-- SCM_RIGHTS with the descriptors 10 and 11
abbrev pub rights : Bytes
rights =
    (24 ∷ 0 ∷ 0 ∷ 0 ∷ 0 ∷ 0 ∷ 0 ∷ 0 ∷ [])
    ++ (1 ∷ 0 ∷ 0 ∷ 0 ∷ 1 ∷ 0 ∷ 0 ∷ 0 ∷ [])
    ++ (10 ∷ 0 ∷ 0 ∷ 0 ∷ 11 ∷ 0 ∷ 0 ∷ 0 ∷ [])

abbrev pub plain : ℕ → Bytes → Reply
plain n out = record { res = pos n; errno = pos 0; out = out; control = []; status = pos 0 }

abbrev pub reply_to : Call → Reply
reply_to (read_file fd) = plain 7 (codes "Pid:" ++ 32 ∷ 55 ∷ 10 ∷ [])
reply_to (pread fd len offset) = plain 3 (codes "x/" ++ 0 ∷ [])
reply_to (read_pipe len) = plain 16 (replicate 16 0)
reply_to recvmsg = record {
  res = pos 138;
  errno = pos 0;
  out = packet;
  control = rights;
  status = pos 0;
}
reply_to (sendmsg content) = plain 136 []
reply_to get_securebits = plain 0 []
reply_to c = plain 5 []

abbrev pub willing : Kernel
willing = record { reply = λ h c. reply_to c; rounds = 2; flags_from_bits = λ n. some n }

-- What the files of a container's process say.
abbrev pub text_of : Bytes → Bytes
text_of path =
    if bytes_eq path (codes "status")
    then codes "Pid:" ++ 32 ∷ 55 ∷ 10 ∷ []
    else if bytes_eq path (codes "cgroup")
    then codes "0::/lxc/100" ++ 10 ∷ []
    else codes "unconfined" ++ 10 ∷ []

-- The client hangs up once it has its answer.
abbrev pub in_proc : Call → History → Reply
in_proc (read_file fd) (openat dir path flags mode ∷ h) = plain 5 (text_of path)
in_proc recvmsg (readable ∷ close p ∷ close m ∷ sendmsg content ∷ h) = plain 0 []
in_proc c h = reply_to c

abbrev pub container : Kernel
container = record { reply = λ h c. in_proc c h; rounds = 2; flags_from_bits = λ n. some n }

abbrev pub caller : PidFd
caller = record { fd = pos 10; pid = pos 7 }

abbrev pub own : PidFd
own = record { fd = pos 12; pid = pos 8 }

abbrev pub caller_caps : UserCaps
caller_caps = record {
  pidfd = caller;
  apply_uids = true;
  euid = 100000;
  egid = 100000;
  fsuid = 100000;
  fsgid = 100000;
  capabilities = record { inheritable = 0; permitted = 2 ^ 33 + 8; effective = 8 };
  umask = 18;
  cgroup_v1_devices = none;
  cgroup_v2_base = [];
  cgroup_v2 = some (codes "/lxc/100");
  apparmor_profile = some (codes "lxc-100");
}
