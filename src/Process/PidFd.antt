-- ===== src/Process/PidFd.antt =====
-- src/process/pid_fd.rs: access to another process through a descriptor of its /proc directory.
-- That a descriptor is closed when its owner is dropped is not modelled.
pub mod Maps
use Prim.Native.Nat.{bit_or}
use pve_lxc_syscalld.Base.{
  ℕ, ℤ, minus_one, eq_ℤ, Bytes, codes, ◌++◌, List, Option, some, none, Error, Result, os,
  if◌then◌else◌, [],
}
use pve_lxc_syscalld.Libc.{o_rdonly, o_directory, o_cloexec}
use pve_lxc_syscalld.Kernel.{
  Action, ◌>>=◌, ◌>>◌, lift, pure, call, c_try, c_result, Reply, getpid, open_path, openat,
  read_file, fchdir, chroot, chdir,
}
use pve_lxc_syscalld.NsFd.{NsFd, mount, user, cgroup}
use pve_lxc_syscalld.NsFd
use pve_lxc_syscalld.Process.Text.{split_lines, print_ℤ}
use pve_lxc_syscalld.Process.IdMap.{IdMap}
use pve_lxc_syscalld.Process.CGroups.{CGroups}
use pve_lxc_syscalld.Process.CGroups
use pve_lxc_syscalld.Process.Status.{ProcStatus, default_status, status_lines, pid_lines, map_lines}

pub record PidFd : Type 0 where
  pub fd : ℤ
  pub pid : ℤ

unfoldable pub open_pid : ℤ → Action PidFd
unfolding c_result
open_pid pid = do
  r ← c_try (open_path (codes "/proc/" ++ print_ℤ pid) (bit_or o_directory o_cloexec))
  pure (record { fd = r.res; pid = pid })

unfoldable pub current : Action PidFd
unfolding open_pid
current = do r ← call getpid; open_pid r.res

-- `self.fd(path, flags, mode)`; `open_file` wraps the same descriptor as a file.
unfoldable pub fd_at : PidFd → Bytes → ℕ → ℕ → Action ℤ
unfolding c_result
fd_at p path flags mode = do r ← c_try (openat p.fd path (bit_or flags o_cloexec) mode); pure r.res

unfoldable pub fd_cwd : PidFd → Action ℤ
unfolding fd_at
fd_cwd p = fd_at p (codes "cwd") o_directory 0

unfoldable pub fd_num : PidFd → ℤ → ℕ → Action ℤ
unfolding fd_at
fd_num p num flags = fd_at p (codes "fd/" ++ print_ℤ num) flags 0

unfoldable pub mount_namespace : PidFd → Action NsFd
mount_namespace p = NsFd.openat mount p.fd (codes "ns/mnt")

unfoldable pub cgroup_namespace : PidFd → Action NsFd
cgroup_namespace p = NsFd.openat cgroup p.fd (codes "ns/cgroup")

unfoldable pub user_namespace : PidFd → Action NsFd
user_namespace p = NsFd.openat user p.fd (codes "ns/user")

unfoldable pub enter_cwd : PidFd → Action (Unit {0})
unfolding fd_cwd c_result
enter_cwd p = do fd ← fd_cwd p; c_try (fchdir fd); pure tt

unfoldable pub enter_chroot : PidFd → Action (Unit {0})
unfolding c_result
enter_chroot p = do
  c_try (fchdir p.fd)
  c_try (chroot (codes "root"))
  c_try (chdir (codes "/"))
  pure tt

abbrev pub failure_of : Reply → Option Error
failure_of r = if eq_ℤ r.res minus_one then some (os r.errno) else none

-- `open_buffered`, and all that its lines read.
unfoldable pub lines_of : PidFd → Bytes → Action (List (Result Bytes))
unfolding fd_at
lines_of p path = do
  fd ← fd_at p path (bit_or o_rdonly o_cloexec) 0
  r ← call (read_file fd)
  pure (split_lines r.out [] (failure_of r))

unfoldable pub read_pid : PidFd → Action ℤ
unfolding lines_of
read_pid p = do items ← lines_of p (codes "status"); lift (pid_lines items)

unfoldable pub try_from_fd : ℤ → Action PidFd
unfolding read_pid
try_from_fd fd = do
  pid ← read_pid (record { fd = fd; pid = minus_one })
  pure (record { fd = fd; pid = pid })

unfoldable pub get_status : PidFd → Action ProcStatus
unfolding lines_of
get_status p = do items ← lines_of p (codes "status"); lift (status_lines default_status items)

unfoldable pub get_cgroups : PidFd → Action CGroups
unfolding lines_of
get_cgroups p = do
  items ← lines_of p (codes "cgroup")
  lift (CGroups.read_lines CGroups.empty items)

unfoldable pub get_uid_gid_map : PidFd → Bytes → Action IdMap
unfolding lines_of
get_uid_gid_map p file = do items ← lines_of p file; lift (map_lines items)

unfoldable pub get_uid_map : PidFd → Action IdMap
unfolding get_uid_gid_map
get_uid_map p = get_uid_gid_map p (codes "uid_map")

unfoldable pub get_gid_map : PidFd → Action IdMap
unfolding get_uid_gid_map
get_gid_map p = get_uid_gid_map p (codes "gid_map")

-- `read_to_end` drops what it read before an error.
unfoldable pub read_whole : PidFd → Bytes → Action Bytes
unfolding fd_at c_result
read_whole p file = do
  fd ← fd_at p file (bit_or o_rdonly o_cloexec) 0
  r ← c_try (read_file fd)
  pure r.out
