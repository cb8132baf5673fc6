-- ===== src/Libc.antt =====
-- Constants of the Linux x86_64 ABI that the sources name through `libc` and `nix`.
use pve_lxc_syscalld.Base.{ℕ, ℤ, negsuc, pos}

abbrev pub eperm : ℤ
eperm = pos 1

abbrev pub enoent : ℤ
enoent = pos 2

abbrev pub eintr : ℤ
eintr = pos 4

abbrev pub eagain : ℤ
eagain = pos 11

abbrev pub efault : ℤ
efault = pos 14

abbrev pub einval : ℤ
einval = pos 22

abbrev pub erange : ℤ
erange = pos 34

abbrev pub enosys : ℤ
enosys = pos 38

abbrev pub eopnotsupp : ℤ
eopnotsupp = pos 95

-- `AT_FDCWD` is -100.
abbrev pub at_fdcwd : ℤ
at_fdcwd = negsuc 99

abbrev pub o_rdonly : ℕ
o_rdonly = 0

abbrev pub o_rdwr : ℕ
o_rdwr = 2

abbrev pub o_directory : ℕ
o_directory = 0o200000

abbrev pub o_cloexec : ℕ
o_cloexec = 0o2000000

abbrev pub s_ifmt : ℕ
s_ifmt = 0o170000

abbrev pub s_ifchr : ℕ
s_ifchr = 0o020000

abbrev pub s_ifreg : ℕ
s_ifreg = 0o100000

abbrev pub clone_newns : ℕ
clone_newns = 0x20000

abbrev pub clone_newuser : ℕ
clone_newuser = 0x10000000

abbrev pub clone_newcgroup : ℕ
clone_newcgroup = 0x2000000

abbrev pub sol_socket : ℤ
sol_socket = pos 1

abbrev pub scm_rights : ℤ
scm_rights = pos 1

abbrev pub q_sync_cmd : ℤ
q_sync_cmd = pos 0x800001

abbrev pub q_quotaon_cmd : ℤ
q_quotaon_cmd = pos 0x800002

abbrev pub q_quotaoff_cmd : ℤ
q_quotaoff_cmd = pos 0x800003

abbrev pub q_getfmt_cmd : ℤ
q_getfmt_cmd = pos 0x800004

abbrev pub q_getinfo_cmd : ℤ
q_getinfo_cmd = pos 0x800005

abbrev pub q_setinfo_cmd : ℤ
q_setinfo_cmd = pos 0x800006

abbrev pub q_getquota_cmd : ℤ
q_getquota_cmd = pos 0x800007

abbrev pub q_setquota_cmd : ℤ
q_setquota_cmd = pos 0x800008

abbrev pub usrquota : ℤ
usrquota = pos 0

abbrev pub grpquota : ℤ
grpquota = pos 1

-- `size_of::<libc::dqblk>()`: eight u64 and a u32, rounded up to the alignment of a u64
abbrev pub size_of_dqblk : ℕ
size_of_dqblk = 72
