-- ===== src/Guard/Reads.antt =====
-- `Keeps` for what reads a process: src/process/pid_fd.rs, src/apparmor.rs and the accessors of memory.
use pve_lxc_syscalld.Base.{ℕ, ℤ, Bool, Bytes}
use pve_lxc_syscalld.Kernel.{Kernel, openat, read_file, open_path, getpid, pread, get_securebits}
use pve_lxc_syscalld.AppArmor.{get_label}
use pve_lxc_syscalld.Process.PidFd.{
  PidFd, current, fd_at, fd_cwd, fd_num, lines_of, try_from_fd, get_status, get_cgroups,
  get_uid_map, get_gid_map, read_whole,
}
use pve_lxc_syscalld.Process.UserCaps.{user_caps}
use pve_lxc_syscalld.Syscall.{read_at}
use pve_lxc_syscalld.SysMknod.{DevNumbers}
use pve_lxc_syscalld.Guard.{Keeps}
use pve_lxc_syscalld.Guard.Rules.{
  Keeps-nix_try, Keeps-lift, Keeps-pure, Keeps-bind, Keeps-then, Keeps-attempt, Keeps-if,
  Keeps-call, Keeps-c_try, Allows,
}

module _ (d : DevNumbers) (k : Kernel) (b : Bool) where
  pub Allows-openat :
      (fd : ℤ) (path : Bytes) (flags mode : ℕ) → Allows d k b (openat fd path flags mode)
  Allows-openat fd path flags mode h w = ((tt, w.0), w.1)

  pub Allows-open_path : (path : Bytes) (flags : ℕ) → Allows d k b (open_path path flags)
  Allows-open_path path flags h w = ((tt, w.0), w.1)

  pub Allows-read_file : (fd : ℤ) → Allows d k b (read_file fd)
  Allows-read_file fd h w = ((tt, w.0), w.1)

  pub Allows-pread : (fd : ℤ) (len offset : ℕ) → Allows d k b (pread fd len offset)
  Allows-pread fd len offset h w = ((tt, w.0), w.1)

  pub Allows-getpid : Allows d k b getpid
  Allows-getpid h w = ((tt, w.0), w.1)

  pub Allows-get_securebits : Allows d k b get_securebits
  Allows-get_securebits h w = ((tt, w.0), w.1)

pub ruleset keeping = (
  Keeps-bind, Keeps-then, Keeps-pure, Keeps-lift, Keeps-call, Keeps-c_try, Keeps-nix_try,
  Keeps-attempt, Keeps-if,
)

pub ruleset reading = (
  keeping, Allows-openat, Allows-open_path, Allows-read_file, Allows-pread, Allows-getpid,
  Allows-get_securebits,
)

module _ (d : DevNumbers) (k : Kernel) (b : Bool) where
  pub Keeps-fd_at :
      (p : PidFd) (path : Bytes) (flags mode : ℕ) → Keeps d k b (fd_at p path flags mode)
  unfolding fd_at
  Keeps-fd_at p path flags mode = search reading

  pub Keeps-fd_cwd : (p : PidFd) → Keeps d k b (fd_cwd p)
  unfolding fd_cwd
  Keeps-fd_cwd p = search reading

  pub Keeps-fd_num : (p : PidFd) (n : ℤ) (flags : ℕ) → Keeps d k b (fd_num p n flags)
  unfolding fd_num
  Keeps-fd_num p n flags = search reading

  pub Keeps-lines_of : (p : PidFd) (path : Bytes) → Keeps d k b (lines_of p path)
  unfolding lines_of
  Keeps-lines_of p path = search (reading, Keeps-fd_at)

  pub Keeps-try_from_fd : (fd : ℤ) → Keeps d k b (try_from_fd fd)
  unfolding try_from_fd
  Keeps-try_from_fd fd = search (reading, Keeps-lines_of)

  Keeps-get_status : (p : PidFd) → Keeps d k b (get_status p)
  unfolding get_status
  Keeps-get_status p = search (reading, Keeps-lines_of)

  Keeps-get_cgroups : (p : PidFd) → Keeps d k b (get_cgroups p)
  unfolding get_cgroups
  Keeps-get_cgroups p = search (reading, Keeps-lines_of)

  pub Keeps-get_uid_map : (p : PidFd) → Keeps d k b (get_uid_map p)
  unfolding get_uid_map
  Keeps-get_uid_map p = search (reading, Keeps-lines_of)

  pub Keeps-get_gid_map : (p : PidFd) → Keeps d k b (get_gid_map p)
  unfolding get_gid_map
  Keeps-get_gid_map p = search (reading, Keeps-lines_of)

  Keeps-read_whole : (p : PidFd) (path : Bytes) → Keeps d k b (read_whole p path)
  unfolding read_whole
  Keeps-read_whole p path = search (reading, Keeps-fd_at)

  Keeps-get_label : (p : PidFd) → Keeps d k b (get_label p)
  unfolding get_label
  Keeps-get_label p = search (reading, Keeps-read_whole)

  pub Keeps-user_caps : (p : PidFd) → Keeps d k b (user_caps p)
  unfolding user_caps
  Keeps-user_caps p = search (reading, Keeps-get_status, Keeps-get_cgroups, Keeps-get_label)

  pub Keeps-current : Keeps d k b current
  unfolding current
  Keeps-current = search reading

  pub Keeps-read_at : (fd : ℤ) (len offset : ℕ) → Keeps d k b (read_at fd len offset)
  unfolding read_at
  Keeps-read_at fd len offset = search reading
