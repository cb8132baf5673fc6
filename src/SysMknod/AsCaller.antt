-- ===== src/SysMknod/AsCaller.antt =====
-- As whom src/sys_mknod.rs makes `mknodat`.
use Prim.Native.Nat.{bit_or}
use pve_lxc_syscalld.Base.{
  false, ◌≢◌, refl, sym, ap₂, ℕ, ℤ, Bytes, codes, ◌++◌, ◌∷◌, ok, some, true, Bool, ◌≡◌, ◌∙◌, ap,
  arith, minus_one, eq_ℤ, if◌then◌else◌,
}
use pve_lxc_syscalld.Libc.{eperm, o_directory, o_cloexec}
use pve_lxc_syscalld.Kernel.{
  lift, pure, Reply, Kernel, History, getpid, open_path, c_result, mknodat as sys_mknodat,
}
use pve_lxc_syscalld.Kernel.Laws.{bind_ok, push_all}
use pve_lxc_syscalld.Process.Text.{print_ℤ}
use pve_lxc_syscalld.Process.PidFd.{get_cgroups, get_status, PidFd, open_pid, current}
use pve_lxc_syscalld.Process.UserCaps.{user_caps_of, user_caps, UserCaps}
use pve_lxc_syscalld.Syscall.{sc_libc_try, refuse, SyscallStatus, done, failed}
use pve_lxc_syscalld.SysMknod.{
  DevNumbers, check_mknod_dev, become, mknodat_child, do_mknodat, mknodat_allowed, mknodat,
}
use pve_lxc_syscalld.AppArmor.{get_label}
use pve_lxc_syscalld.Fork.{forking_syscall}
use pve_lxc_syscalld.LxcSeccomp.{ProxyMessageBuffer, pid_fd_of}
use pve_lxc_syscalld.LxcSeccomp.Args.{arg_mode_t, arg_dev_t, arg_fd, arg_c_string}
use pve_lxc_syscalld.Takeover.{takeover, handles_of}
use pve_lxc_syscalld.Takeover.Applied.{apply_makes_takeover}

abbrev pub opened : Kernel → History → History
opened k h =
    let pid = (k.reply h getpid).res in
    open_path (codes "/proc/" ++ print_ℤ pid) (bit_or o_directory o_cloexec) ∷ getpid ∷ h

abbrev pub own_of : Kernel → History → PidFd
own_of k h =
    let pid = (k.reply h getpid).res in
    record {
      fd =
          (k.reply (getpid ∷ h)
            (open_path (codes "/proc/" ++ print_ℤ pid) (bit_or o_directory o_cloexec))).res;
      pid = pid;
    }

current_opens :
    (k : Kernel) (h h' : History) (own : PidFd)
    → current k h ≡ (ok own, h')
    → (own ≡ own_of k h) × (h' ≡ opened k h)
unfolding current open_pid c_result
current_opens k h h' own e = ground arith

-- The history once the child has taken on the capabilities.
abbrev pub taken_over : Kernel → UserCaps → History → History
taken_over k caps h =
    push_all (takeover caps (own_of k h) (handles_of k caps (own_of k h) (opened k h))) (opened k h)

pub become_makes_takeover :
    (k : Kernel) (h h' : History) (caps : UserCaps)
    → caps.apply_uids ≡ true
    → become caps k h ≡ (ok tt, h')
    → h' ≡ taken_over k caps h
unfolding become
become_makes_takeover k h h' caps t e =
    let (own, h1, e1, e2) = bind_ok current _ k h e in
    let (q, q1) = current_opens k h h1 own e1 in
    apply_makes_takeover k h1 caps own t h' e2
    ∙ ap₂ (λ o g. push_all (takeover caps o (handles_of k caps o g)) g) q q1

-- The status for a reply to `mknodat`.
abbrev pub status_for : Reply → SyscallStatus
status_for r = if eq_ℤ r.res minus_one then failed r.errno else done r.res

-- If the child of `do_mknodat` ends with a status, then its calls are exactly these: it opens its own
-- directory, makes all the calls of the takeover of the capabilities that it was given, ids included, and
-- last the one `mknodat`, with the arguments as they were given; and the status is that call's outcome.
pub mknodat_child_lem :
    (k : Kernel) (h h' : History) (caps : UserCaps) (dirfd : ℤ) (pathname : Bytes) (mode dev : ℕ)
    (s : SyscallStatus)
    → caps.apply_uids ≡ true
    → mknodat_child caps dirfd pathname mode dev k h ≡ (ok s, h')
    → (h' ≡ sys_mknodat dirfd pathname mode dev ∷ taken_over k caps h)
      × (s ≡ status_for (k.reply (taken_over k caps h) (sys_mknodat dirfd pathname mode dev)))
unfolding mknodat_child
mknodat_child_lem k h h' caps dirfd pathname mode dev s t e =
    let (x, h1, e1, e2) =
      bind_ok (become caps)
        (λ _. sc_libc_try (sys_mknodat dirfd pathname mode dev) λ r. pure (done (r.res))) k h e in
    called h1 (become_makes_takeover k h h1 caps t e1) e2
  where
    called :
        (h1 : History)
        → h1 ≡ taken_over k caps h
        → sc_libc_try (sys_mknodat dirfd pathname mode dev) (λ r. pure (done (r.res))) k h1
          ≡ (ok s, h')
        → (h' ≡ sys_mknodat dirfd pathname mode dev ∷ taken_over k caps h)
          × (s ≡ status_for (k.reply (taken_over k caps h) (sys_mknodat dirfd pathname mode dev)))
    called h1 q e2 = rw (sym q) (ground arith)

-- The capabilities are those of the process that is read, and say that its ids are to be taken on.
pub user_caps_pidfd :
    (k : Kernel) (h h' : History) (p : PidFd) (u : UserCaps)
    → user_caps p k h ≡ (ok u, h')
    → (u.pidfd ≡ p) × (u.apply_uids ≡ true)
unfolding user_caps user_caps_of
user_caps_pidfd k h h' p u e =
    let (status, h1, _, e1) = bind_ok (get_status p) _ k h e in
    let (cgroups, h2, _, e2) = bind_ok (get_cgroups p) _ k h1 e1 in
    let (profile, h3, _, e3) = bind_ok (get_label p) _ k h2 e2 in
    (ground (arith, e3), ground (arith, e3))

module _ (d : DevNumbers) (msg : ProxyMessageBuffer) (k : Kernel) (h h' : History) where
  abbrev pub AsCaller : SyscallStatus → Type 0
  AsCaller s =
      (caller : PidFd) × (caps : UserCaps) × (dirfd : ℤ) × (pathname : Bytes) × (mode : ℕ)
      × (dev : ℕ) × (h1 : History) × (h2 : History) × (msg.pid_fd ≡ some caller)
      × (check_mknod_dev d mode dev ≡ true)
      × (user_caps caller k h1 ≡ (ok caps, h2))
      × (caps.pidfd ≡ caller)
      × (caps.apply_uids ≡ true)
      × (forking_syscall (mknodat_child caps dirfd pathname mode dev) k h2 ≡ (ok s, h'))

  do_mknodat_as :
      (caller : PidFd) (dirfd : ℤ) (pathname : Bytes) (mode dev : ℕ) (h1 : History)
      (s : SyscallStatus)
      → pid_fd_of msg ≡ ok caller
      → check_mknod_dev d mode dev ≡ true
      → do_mknodat caller dirfd pathname mode dev k h1 ≡ (ok s, h')
      → AsCaller s
  unfolding do_mknodat pid_fd_of
  do_mknodat_as caller dirfd pathname mode dev h1 s p c e =
      let (caps, h2, e1, e2) = bind_ok (user_caps caller) _ k h1 e in
      let (q, t) = user_caps_pidfd k h1 h2 caller caps e1 in
      (caller, caps, dirfd, pathname, mode, dev, h1, h2, ground arith, c, e1, q, t, e2)

  -- If `mknodat` ends with a status other than EPERM, then the device is one of the allowed, and the
  -- status is that of a child that was given the capabilities read from the process of the message.
  pub mknodat-AsCaller :
      (s : SyscallStatus) → s ≢ failed eperm → mknodat d msg k h ≡ (ok s, h') → AsCaller s
  unfolding mknodat mknodat_allowed
  mknodat-AsCaller s other e =
      let (mode, h1, e1, f1) = bind_ok (lift (arg_mode_t msg 2)) _ k h e in
      let (dev, h2, e2, f2) = bind_ok (lift (arg_dev_t msg 3)) _ k h1 f1 in
      decided mode dev h2 (check_mknod_dev d mode dev) refl f2
    where
      allowed :
          (mode dev : ℕ) (h2 : History)
          → check_mknod_dev d mode dev ≡ true
          → mknodat_allowed msg mode dev k h2 ≡ (ok s, h')
          → AsCaller s
      allowed mode dev h2 c f =
          let (dirfd, h3, _, f3) = bind_ok (arg_fd msg 0 o_directory) _ k h2 f in
          let (pathname, h4, _, f4) = bind_ok (arg_c_string msg 1) _ k h3 f3 in
          let (caller, h5, e5, f5) = bind_ok (lift (pid_fd_of msg)) _ k h4 f4 in
          do_mknodat_as caller dirfd pathname mode dev h5 s (ap (λ x. x.0) e5) c f5

      decided :
          (mode dev : ℕ) (h2 : History) (b : Bool)
          → check_mknod_dev d mode dev ≡ b
          → (if b then mknodat_allowed msg mode dev else refuse eperm) k h2 ≡ (ok s, h')
          → AsCaller s
      decided mode dev h2 true c f = allowed mode dev h2 c f
      decided mode dev h2 false c f = absurd (other (ground arith))
