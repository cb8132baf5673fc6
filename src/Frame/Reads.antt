-- ===== src/Frame/Reads.antt =====
-- `Frames` for what reads a process: src/process/pid_fd.rs, src/apparmor.rs and the accessors of memory.
use Prim.Native.Nat.{bit_or}
use pve_lxc_syscalld.Base.{
  ℕ, ℤ, ◌≡◌, refl, false, [], Bytes, codes, List, Result, ok, err, panic, hang, is_hang,
}
use pve_lxc_syscalld.Libc.{o_rdonly, o_cloexec}
use pve_lxc_syscalld.Kernel.{Kernel, History, ◌>>=◌, then_run, lift, pure, call, read_file}
use pve_lxc_syscalld.AppArmor.{get_label}
use pve_lxc_syscalld.Process.CGroups.{read_lines, empty}
use pve_lxc_syscalld.Process.Text.{split_lines}
use pve_lxc_syscalld.Process.Status.{default_status, status_lines, pid_lines, map_lines}
use pve_lxc_syscalld.Process.PidFd.{
  PidFd, current, fd_at, fd_cwd, fd_num, lines_of, try_from_fd, get_status, get_cgroups,
  get_uid_map, get_gid_map, read_whole, read_pid, get_uid_gid_map, failure_of,
}
use pve_lxc_syscalld.Process.UserCaps.{user_caps}
use pve_lxc_syscalld.Syscall.{read_at}
use pve_lxc_syscalld.Frame.{Frames, Apart, aside}
use pve_lxc_syscalld.Frame.Returns.{label_of_returns}
use pve_lxc_syscalld.Frame.Parsed.{
  AllReturn, split_lines-AllReturn, pid_lines_returns, status_lines_returns, read_lines_returns,
  map_lines_returns,
}
use pve_lxc_syscalld.Frame.Rules.{framing, Frames-attempted, Frames-lift}

pub Frames-fd_at : (p : PidFd) (path : Bytes) (flags mode : ℕ) → Frames (fd_at p path flags mode)
unfolding fd_at
Frames-fd_at p path flags mode = search framing

pub Frames-fd_cwd : (p : PidFd) → Frames (fd_cwd p)
unfolding fd_cwd
Frames-fd_cwd p = search framing

pub Frames-fd_num : (p : PidFd) (n : ℤ) (flags : ℕ) → Frames (fd_num p n flags)
unfolding fd_num
Frames-fd_num p n flags = search framing

-- What is made of the lines comes to an outcome.
Frames-parsed {ℓ} :
    {A : Type ℓ} (p : PidFd) (path : Bytes) (f : List (Result Bytes) → Result A)
    → ((items : List (Result Bytes)) → AllReturn items → is_hang (f items) ≡ false)
    → Frames (lines_of p path >>= λ items. lift (f items))
unfolding lines_of
Frames-parsed {A} p path f e =
    let opened = Frames-fd_at p path (bit_or o_rdonly o_cloexec) 0 in
    record {
      run = λ k h. moved k h (fd_at p path (bit_or o_rdonly o_cloexec) 0 k h) (opened.run k h);
      returns =
          λ k h w. ended k (fd_at p path (bit_or o_rdonly o_cloexec) 0 k h) (opened.returns k h w);
    }
  where
    all_lines : Kernel → Result ℤ × History → Result A × History
    all_lines k x =
        then_run
          (then_run x
            (λ fd. call (read_file fd) >>= λ r. pure (split_lines r.out [] (failure_of r))) k)
          (λ items. lift (f items)) k

    moved :
        (k : Kernel) (h : History) (x : Result ℤ × History)
        → Apart h x.1
        → Apart h (all_lines k x).1
    moved k h (ok fd, h1) w = aside (read_file fd) refl w
    moved k h (err y, h1) w = w
    moved k h (panic, h1) w = w
    moved k h (hang, h1) w = w

    ended :
        (k : Kernel) (x : Result ℤ × History)
        → is_hang x.0 ≡ false
        → is_hang (all_lines k x).0 ≡ false
    ended k (ok fd, h1) q =
        let r = k.reply h1 (read_file fd) in e _ (split_lines-AllReturn r.out [] (failure_of r))
    ended k (err y, h1) q = refl
    ended k (panic, h1) q = refl
    ended k (hang, h1) q = q

Frames-read_pid : (p : PidFd) → Frames (read_pid p)
unfolding read_pid
Frames-read_pid p = Frames-parsed p (codes "status") pid_lines pid_lines_returns

pub Frames-try_from_fd : (fd : ℤ) → Frames (try_from_fd fd)
unfolding try_from_fd
Frames-try_from_fd fd = search (framing, Frames-read_pid)

Frames-get_status : (p : PidFd) → Frames (get_status p)
unfolding get_status
Frames-get_status p =
    Frames-parsed p (codes "status") (status_lines default_status)
      (status_lines_returns default_status)

Frames-get_cgroups : (p : PidFd) → Frames (get_cgroups p)
unfolding get_cgroups
Frames-get_cgroups p =
    Frames-parsed p (codes "cgroup") (read_lines empty) (read_lines_returns empty)

pub Frames-get_uid_map : (p : PidFd) → Frames (get_uid_map p)
unfolding get_uid_map get_uid_gid_map
Frames-get_uid_map p = Frames-parsed p (codes "uid_map") map_lines map_lines_returns

pub Frames-get_gid_map : (p : PidFd) → Frames (get_gid_map p)
unfolding get_gid_map get_uid_gid_map
Frames-get_gid_map p = Frames-parsed p (codes "gid_map") map_lines map_lines_returns

Frames-read_whole : (p : PidFd) (path : Bytes) → Frames (read_whole p path)
unfolding read_whole
Frames-read_whole p path = search (framing, Frames-fd_at)

Frames-get_label : (p : PidFd) → Frames (get_label p)
unfolding get_label
Frames-get_label p =
    Frames-attempted _ _ (Frames-read_whole p (codes "attr/current"))
      (λ r e. Frames-lift _ (label_of_returns r e))

pub Frames-user_caps : (p : PidFd) → Frames (user_caps p)
unfolding user_caps
Frames-user_caps p = search (framing, Frames-get_status, Frames-get_cgroups, Frames-get_label)

pub Frames-current : Frames current
unfolding current
Frames-current = search framing

pub Frames-read_at : (fd : ℤ) (len offset : ℕ) → Frames (read_at fd len offset)
unfolding read_at
Frames-read_at fd len offset = search framing
