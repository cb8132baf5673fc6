-- ===== src/SysMknod.antt =====
-- src/sys_mknod.rs: `mknod` and `mknodat` on behalf of a container. The split of a device number into
-- its major and minor part is the `nix` crate's, and a parameter.
pub mod Refusal
pub mod AsCaller
use Prim.Native.Nat.{bit_and}
use pve_lxc_syscalld.Base.{ℕ, ℤ, Bytes, Bool, ◌&&◌, ◌||◌, ◌==◌, if◌then◌else◌}
use pve_lxc_syscalld.Libc.{eperm, s_ifmt, s_ifreg, s_ifchr, o_directory}
use pve_lxc_syscalld.Kernel.{Action, ◌>>=◌, ◌>>◌, lift, pure, mknodat as sys_mknodat}
use pve_lxc_syscalld.LxcSeccomp.{ProxyMessageBuffer, pid_fd_of}
use pve_lxc_syscalld.LxcSeccomp.Args.{arg_mode_t, arg_dev_t, arg_c_string, arg_fd}
use pve_lxc_syscalld.Process.PidFd.{PidFd, current, fd_cwd}
use pve_lxc_syscalld.Process.UserCaps.{UserCaps, user_caps, apply}
use pve_lxc_syscalld.Syscall.{SyscallStatus, done, sc_libc_try, refuse}
use pve_lxc_syscalld.Fork.{forking_syscall}

-- `nix::sys::stat::major` and `minor`
pub record DevNumbers : Type 0 where
  pub major : ℕ → ℕ
  pub minor : ℕ → ℕ

-- `caps.apply(&PidFd::current()?)?`, with which each child begins
unfoldable pub become : UserCaps → Action (Unit {0})
unfolding current apply
become caps = do own ← current; apply caps own

-- The arms of the `match`, on the file type, the major and the minor number.
unfoldable pub is_allowed_dev : ℕ → ℕ → ℕ → Bool
is_allowed_dev sflag major minor =
    let arm = λ (t : ℕ) (a : ℕ) (b : ℕ). sflag == t && major == a && minor == b in
    arm s_ifreg 0 0
    || arm s_ifchr 0 0
    || arm s_ifchr 5 0
    || arm s_ifchr 5 1
    || arm s_ifchr 5 2
    || arm s_ifchr 1 3
    || arm s_ifchr 1 5
    || arm s_ifchr 1 7
    || arm s_ifchr 1 8
    || arm s_ifchr 1 9

module _ (dev_numbers : DevNumbers) where
  unfoldable pub check_mknod_dev : ℕ → ℕ → Bool
  unfolding is_allowed_dev
  check_mknod_dev mode dev =
      is_allowed_dev (bit_and mode s_ifmt) (dev_numbers.major dev) (dev_numbers.minor dev)

-- The child of `do_mknodat`.
unfoldable pub mknodat_child : UserCaps → ℤ → Bytes → ℕ → ℕ → Action SyscallStatus
unfolding become
mknodat_child caps dirfd pathname mode dev = do
  become caps
  sc_libc_try (sys_mknodat dirfd pathname mode dev) λ r. pure (done (r.res))

unfoldable pub do_mknodat : PidFd → ℤ → Bytes → ℕ → ℕ → Action SyscallStatus
unfolding user_caps forking_syscall mknodat_child
do_mknodat pidfd dirfd pathname mode dev = do
  caps ← user_caps pidfd
  forking_syscall (mknodat_child caps dirfd pathname mode dev)

-- What `mknod` and `mknodat` do once the device is allowed.
unfoldable pub mknod_allowed : ProxyMessageBuffer → ℕ → ℕ → Action SyscallStatus
unfolding arg_c_string pid_fd_of fd_cwd do_mknodat
mknod_allowed msg mode dev = do
  pathname ← arg_c_string msg 0
  pidfd ← lift (pid_fd_of msg)
  cwd ← fd_cwd pidfd
  do_mknodat pidfd cwd pathname mode dev

unfoldable pub mknodat_allowed : ProxyMessageBuffer → ℕ → ℕ → Action SyscallStatus
unfolding arg_c_string arg_fd pid_fd_of do_mknodat
mknodat_allowed msg mode dev = do
  dirfd ← arg_fd msg 0 o_directory
  pathname ← arg_c_string msg 1
  pidfd ← lift (pid_fd_of msg)
  do_mknodat pidfd dirfd pathname mode dev

module _ (dev_numbers : DevNumbers) where
  unfoldable pub mknod : ProxyMessageBuffer → Action SyscallStatus
  unfolding arg_mode_t arg_dev_t check_mknod_dev mknod_allowed
  mknod msg = do
    mode ← lift (arg_mode_t msg 1)
    dev ← lift (arg_dev_t msg 2)
    if check_mknod_dev dev_numbers mode dev then mknod_allowed msg mode dev else refuse eperm

  unfoldable pub mknodat : ProxyMessageBuffer → Action SyscallStatus
  unfolding arg_mode_t arg_dev_t check_mknod_dev mknodat_allowed
  mknodat msg = do
    mode ← lift (arg_mode_t msg 2)
    dev ← lift (arg_dev_t msg 3)
    if check_mknod_dev dev_numbers mode dev then mknodat_allowed msg mode dev else refuse eperm
