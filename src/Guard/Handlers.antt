-- ===== src/Guard/Handlers.antt =====
-- `Keeps` for `mknod` and `mknodat` of src/sys_mknod.rs, and what a handler shares with others.
use pve_lxc_syscalld.Base.{
  ℕ, ℤ, minus_one, eq_ℤ, Bool, true, false, Bytes, ◌∷◌, ok, ◌≡◌, if◌then◌else◌,
}
use pve_lxc_syscalld.Libc.{o_directory, eperm}
use pve_lxc_syscalld.Kernel.{
  Action, Kernel, History, Call, Reply, ◌>>◌, pure, mknodat as sys_mknodat,
}
use pve_lxc_syscalld.Process.PidFd.{PidFd}
use pve_lxc_syscalld.Process.UserCaps.{UserCaps, user_caps}
use pve_lxc_syscalld.Syscall.{SyscallStatus, done, failed, sc_libc_try, get_c_string}
use pve_lxc_syscalld.LxcSeccomp.{ProxyMessageBuffer, pid_fd_of}
use pve_lxc_syscalld.LxcSeccomp.Args.{
  arg_opt_c_string, arg_c_string, arg_struct_by_ptr, mem_write_struct, arg_fd, arg_mode_t,
  arg_dev_t,
}
use pve_lxc_syscalld.SysMknod.{
  DevNumbers, become, check_mknod_dev, mknodat_child, do_mknodat, mknod_allowed, mknodat_allowed,
  mknod, mknodat,
}
use pve_lxc_syscalld.SysMknod.Refusal.{check_mknod_dev_iff}
use pve_lxc_syscalld.SysMknod.AsCaller.{user_caps_pidfd}
use pve_lxc_syscalld.Guard.{Within, After, Keeps, Entered, IsRead}
use pve_lxc_syscalld.Guard.Rules.{Keeps-lift, Keeps-pure, Keeps-bind, Keeps-bind_ok, Keeps-if_true}
use pve_lxc_syscalld.Guard.Reads.{
  keeping, Keeps-fd_cwd, Keeps-fd_num, Keeps-user_caps, Keeps-read_at,
}
use pve_lxc_syscalld.Guard.Child.{Keeps-become, become-Entered, Allows-pwrite}
use pve_lxc_syscalld.Guard.Forks.{Keeps-forking_syscall}

module _ (d : DevNumbers) (k : Kernel) (b : Bool) where
  Keeps-get_c_string :
      (msg : ProxyMessageBuffer) (offset : ℕ) → Keeps d k b (get_c_string msg offset)
  unfolding get_c_string
  Keeps-get_c_string msg offset = search (keeping, Keeps-read_at)

  pub Keeps-arg_opt_c_string :
      (msg : ProxyMessageBuffer) (i : ℕ) → Keeps d k b (arg_opt_c_string msg i)
  unfolding arg_opt_c_string
  Keeps-arg_opt_c_string msg i = search (keeping, Keeps-get_c_string) depth 7

  pub Keeps-arg_c_string : (msg : ProxyMessageBuffer) (i : ℕ) → Keeps d k b (arg_c_string msg i)
  unfolding arg_c_string
  Keeps-arg_c_string msg i = search (keeping, Keeps-arg_opt_c_string)

  pub Keeps-arg_struct_by_ptr :
      (size : ℕ) (msg : ProxyMessageBuffer) (i : ℕ) → Keeps d k b (arg_struct_by_ptr size msg i)
  unfolding arg_struct_by_ptr
  Keeps-arg_struct_by_ptr size msg i = search (keeping, Keeps-read_at) depth 8

  Keeps-arg_fd : (msg : ProxyMessageBuffer) (i flags : ℕ) → Keeps d k b (arg_fd msg i flags)
  unfolding arg_fd
  Keeps-arg_fd msg i flags = search (keeping, Keeps-fd_cwd, Keeps-fd_num) depth 8

module _ (d : DevNumbers) (k : Kernel) where
  pub Keeps-mem_write_struct :
      (msg : ProxyMessageBuffer) (offset : ℕ) (content : Bytes)
      → Keeps d k true (mem_write_struct msg offset content)
  unfolding mem_write_struct
  Keeps-mem_write_struct msg offset content = search (keeping, Allows-pwrite) depth 8

  -- Safe in a child that has just taken over.
  abbrev pub AfterTakeover : Action SyscallStatus → Type 0
  AfterTakeover m = (h : History) → Entered k h → Within d k true h → After d k true (m k h)

  -- `sc_libc_try!` of a call that may be made at this point.
  pub sc_libc_try-After :
      (c : Call) (next : Reply → Action SyscallStatus) (h : History)
      → Within d k true (c ∷ h)
      → ((r : Reply) → Keeps d k true (next r))
      → After d k true (sc_libc_try c next k h)
  sc_libc_try-After c next h w p =
      branch (eq_ℤ (k.reply h c).res minus_one) ((p (k.reply h c)).run (c ∷ h) w)
    where
      branch :
          (t : Bool)
          → After d k true (next (k.reply h c) k (c ∷ h))
          → After d k true
              (if t then (ok (failed (k.reply h c).errno), c ∷ h) else next (k.reply h c) k (c ∷ h))
      branch true v = w
      branch false v = v

  pub Keeps-as_caller :
      (u : UserCaps) (body : Action SyscallStatus)
      → u.apply_uids ≡ true
      → IsRead k u
      → AfterTakeover body
      → Keeps d k true (become u >> body)
  Keeps-as_caller u body t read p =
      Keeps-bind_ok d k true (become u) (λ _. body) (Keeps-become d k u)
        λ h a h' e w. p h' (become-Entered k h h' u t read e) w

  Keeps-mknodat_child :
      (u : UserCaps) (fd : ℤ) (path : Bytes) (mode dev : ℕ)
      → u.apply_uids ≡ true
      → IsRead k u
      → check_mknod_dev d mode dev ≡ true
      → Keeps d k true (mknodat_child u fd path mode dev)
  unfolding mknodat_child
  Keeps-mknodat_child u fd path mode dev t read ok_dev = Keeps-as_caller u _ t read λ h entered w.
      sc_libc_try-After (sys_mknodat fd path mode dev) (λ r. pure (done r.res)) h
        (((w.1, (check_mknod_dev_iff d mode dev).0 ok_dev, entered), w.0), w.1)
        λ r. Keeps-pure d k true (done r.res)

  Keeps-do_mknodat :
      (p : PidFd) (fd : ℤ) (path : Bytes) (mode dev : ℕ)
      → check_mknod_dev d mode dev ≡ true
      → Keeps d k false (do_mknodat p fd path mode dev)
  unfolding do_mknodat
  Keeps-do_mknodat p fd path mode dev ok_dev =
      Keeps-bind_ok d k false (user_caps p) _ (Keeps-user_caps d k false p) λ h u h' e w.
        (Keeps-forking_syscall d k _ (
            Keeps-mknodat_child u fd path mode dev (user_caps_pidfd k h h' p u e).1 (p, h, h', e)
              ok_dev)).run
          h' w

  Keeps-mknod_allowed :
      (msg : ProxyMessageBuffer) (mode dev : ℕ)
      → check_mknod_dev d mode dev ≡ true
      → Keeps d k false (mknod_allowed msg mode dev)
  unfolding mknod_allowed
  Keeps-mknod_allowed msg mode dev ok_dev =
      Keeps-bind d k false _ _ (Keeps-arg_c_string d k false msg 0) λ path.
        Keeps-bind d k false _ _ (Keeps-lift d k false (pid_fd_of msg)) λ p.
          Keeps-bind d k false _ _ (Keeps-fd_cwd d k false p)
            λ fd. Keeps-do_mknodat p fd path mode dev ok_dev

  Keeps-mknodat_allowed :
      (msg : ProxyMessageBuffer) (mode dev : ℕ)
      → check_mknod_dev d mode dev ≡ true
      → Keeps d k false (mknodat_allowed msg mode dev)
  unfolding mknodat_allowed
  Keeps-mknodat_allowed msg mode dev ok_dev =
      Keeps-bind d k false _ _ (Keeps-arg_fd d k false msg 0 o_directory) λ fd.
        Keeps-bind d k false _ _ (Keeps-arg_c_string d k false msg 1) λ path.
          Keeps-bind d k false _ _ (Keeps-lift d k false (pid_fd_of msg))
            λ p. Keeps-do_mknodat p fd path mode dev ok_dev

  -- `mknod` makes the node only after the takeover, and only for an allowed device.
  pub Keeps-mknod : (msg : ProxyMessageBuffer) → Keeps d k false (mknod d msg)
  unfolding mknod
  Keeps-mknod msg = Keeps-bind d k false _ _ (Keeps-lift d k false (arg_mode_t msg 1)) λ mode.
      Keeps-bind d k false _ _ (Keeps-lift d k false (arg_dev_t msg 2)) λ dev.
        Keeps-if_true d k false (check_mknod_dev d mode dev) _ _ (Keeps-mknod_allowed msg mode dev)
          (Keeps-pure d k false (failed eperm))

  pub Keeps-mknodat : (msg : ProxyMessageBuffer) → Keeps d k false (mknodat d msg)
  unfolding mknodat
  Keeps-mknodat msg = Keeps-bind d k false _ _ (Keeps-lift d k false (arg_mode_t msg 2)) λ mode.
      Keeps-bind d k false _ _ (Keeps-lift d k false (arg_dev_t msg 3)) λ dev.
        Keeps-if_true d k false (check_mknod_dev d mode dev) _ _
          (Keeps-mknodat_allowed msg mode dev) (Keeps-pure d k false (failed eperm))
