-- ===== src/Frame/Handlers.antt =====
-- `Frames` for the handlers of src/sys_mknod.rs, and what they share with others.
use pve_lxc_syscalld.Base.{
  ℕ, ℤ, minus_one, eq_ℤ, Bool, true, false, Bytes, Result, is_hang, refl, ◌∷◌, ok, ◌≡◌,
  if◌then◌else◌,
}
use pve_lxc_syscalld.Kernel.{Action, Kernel, History, Call, Reply}
use pve_lxc_syscalld.Process.PidFd.{PidFd}
use pve_lxc_syscalld.Process.UserCaps.{UserCaps}
use pve_lxc_syscalld.Syscall.{SyscallStatus, failed, sc_libc_try, get_c_string}
use pve_lxc_syscalld.LxcSeccomp.{ProxyMessageBuffer}
use pve_lxc_syscalld.LxcSeccomp.Args.{
  arg_opt_c_string, arg_c_string, arg_struct_by_ptr, mem_write_struct, arg_fd,
}
use pve_lxc_syscalld.SysMknod.{
  DevNumbers, mknodat_child, do_mknodat, mknod_allowed, mknodat_allowed, mknod, mknodat,
}
use pve_lxc_syscalld.Frame.{is_aside, Apart, same, aside, IsFair, Frames}
use pve_lxc_syscalld.Frame.Rules.{framing, Apart-trans}
use pve_lxc_syscalld.Frame.Reads.{Frames-fd_cwd, Frames-fd_num, Frames-user_caps, Frames-read_at}
use pve_lxc_syscalld.Frame.Child.{Frames-become}
use pve_lxc_syscalld.Frame.Forks.{Frames-forking_syscall}

Frames-get_c_string : (msg : ProxyMessageBuffer) (offset : ℕ) → Frames (get_c_string msg offset)
unfolding get_c_string
Frames-get_c_string msg offset = search (framing, Frames-read_at)

pub Frames-arg_opt_c_string : (msg : ProxyMessageBuffer) (i : ℕ) → Frames (arg_opt_c_string msg i)
unfolding arg_opt_c_string
Frames-arg_opt_c_string msg i = search (framing, Frames-get_c_string) depth 7

pub Frames-arg_c_string : (msg : ProxyMessageBuffer) (i : ℕ) → Frames (arg_c_string msg i)
unfolding arg_c_string
Frames-arg_c_string msg i = search (framing, Frames-arg_opt_c_string)

pub Frames-arg_struct_by_ptr :
    (size : ℕ) (msg : ProxyMessageBuffer) (i : ℕ) → Frames (arg_struct_by_ptr size msg i)
unfolding arg_struct_by_ptr
Frames-arg_struct_by_ptr size msg i = search (framing, Frames-read_at) depth 8

Frames-arg_fd : (msg : ProxyMessageBuffer) (i flags : ℕ) → Frames (arg_fd msg i flags)
unfolding arg_fd
Frames-arg_fd msg i flags = search (framing, Frames-fd_cwd, Frames-fd_num) depth 8

pub Frames-mem_write_struct :
    (msg : ProxyMessageBuffer) (offset : ℕ) (content : Bytes)
    → Frames (mem_write_struct msg offset content)
unfolding mem_write_struct
Frames-mem_write_struct msg offset content = search framing depth 8

pub Frames-sc_libc_try :
    (c : Call) (next : Reply → Action SyscallStatus)
    → is_aside c ≡ true
    → ((r : Reply) → Frames (next r))
    → Frames (sc_libc_try c next)
Frames-sc_libc_try c next p f = record {
  run = λ k h. branch k h (eq_ℤ (k.reply h c).res minus_one);
  returns = λ k h w. ended k h (eq_ℤ (k.reply h c).res minus_one) w;
}
  where
    failed_or_next : Kernel → History → Bool → Result SyscallStatus × History
    failed_or_next k h t =
        if t then (ok (failed (k.reply h c).errno), c ∷ h) else next (k.reply h c) k (c ∷ h)

    branch : (k : Kernel) (h : History) (t : Bool) → Apart h (failed_or_next k h t).1
    branch k h true = aside c p same
    branch k h false = Apart-trans (aside c p same) ((f (k.reply h c)).run k (c ∷ h))

    ended :
        (k : Kernel) (h : History) (t : Bool) → IsFair k → is_hang (failed_or_next k h t).0 ≡ false
    ended k h true w = refl
    ended k h false w = (f (k.reply h c)).returns k (c ∷ h) w

Frames-mknodat_child :
    (u : UserCaps) (fd : ℤ) (path : Bytes) (mode dev : ℕ)
    → Frames (mknodat_child u fd path mode dev)
unfolding mknodat_child
Frames-mknodat_child u fd path mode dev = search (framing, Frames-become, Frames-sc_libc_try)

Frames-do_mknodat :
    (p : PidFd) (fd : ℤ) (path : Bytes) (mode dev : ℕ) → Frames (do_mknodat p fd path mode dev)
unfolding do_mknodat
Frames-do_mknodat p fd path mode dev =
    search (framing, Frames-user_caps, Frames-forking_syscall, Frames-mknodat_child)

Frames-mknod_allowed :
    (msg : ProxyMessageBuffer) (mode dev : ℕ) → Frames (mknod_allowed msg mode dev)
unfolding mknod_allowed
Frames-mknod_allowed msg mode dev =
    search (framing, Frames-arg_c_string, Frames-fd_cwd, Frames-do_mknodat) depth 8

Frames-mknodat_allowed :
    (msg : ProxyMessageBuffer) (mode dev : ℕ) → Frames (mknodat_allowed msg mode dev)
unfolding mknodat_allowed
Frames-mknodat_allowed msg mode dev =
    search (framing, Frames-arg_c_string, Frames-arg_fd, Frames-do_mknodat) depth 8

pub Frames-mknod : (d : DevNumbers) (msg : ProxyMessageBuffer) → Frames (mknod d msg)
unfolding mknod
Frames-mknod d msg = search (framing, Frames-mknod_allowed) depth 8

pub Frames-mknodat : (d : DevNumbers) (msg : ProxyMessageBuffer) → Frames (mknodat d msg)
unfolding mknodat
Frames-mknodat d msg = search (framing, Frames-mknodat_allowed) depth 8
