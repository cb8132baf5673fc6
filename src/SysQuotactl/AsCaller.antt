-- ===== src/SysQuotactl/AsCaller.antt =====
-- As whom src/sys_quotactl.rs makes `quotactl`, and with what.
use pve_lxc_syscalld.Base.{
  ℕ, ◌≡◌, ◌≢◌, ap, arith, ℤ, pos, eq_ℤ, Bytes, Bool, true, false, if◌then◌else◌, Option, some, none,
  ok,
}
use pve_lxc_syscalld.Libc.{
  q_sync_cmd, q_setquota_cmd, q_getquota_cmd, q_quotaoff_cmd, q_quotaon_cmd, q_getfmt_cmd,
  q_setinfo_cmd, q_getinfo_cmd, einval, eopnotsupp,
}
use pve_lxc_syscalld.Kernel.{
  Action, ◌>>=◌, ◌>>◌, lift, pure, Kernel, History, quotactl as sys_quotactl,
}
use pve_lxc_syscalld.Kernel.Laws.{bind_ok}
use pve_lxc_syscalld.LxcSeccomp.{ProxyMessageBuffer, pid_fd_of}
use pve_lxc_syscalld.LxcSeccomp.Args.{
  arg_c_string, arg_caddr_t, arg_struct_by_ptr, arg_int, arg_opt_c_string,
}
use pve_lxc_syscalld.Process.IdMap.{IdMap}
use pve_lxc_syscalld.Process.PidFd.{PidFd}
use pve_lxc_syscalld.Process.UserCaps.{UserCaps, user_caps}
use pve_lxc_syscalld.Syscall.{SyscallStatus, done, failed, sc_libc_try, refuse}
use pve_lxc_syscalld.SysMknod.{become}
use pve_lxc_syscalld.SysMknod.AsCaller.{user_caps_pidfd}
use pve_lxc_syscalld.Fork.{forking_syscall}
use pve_lxc_syscalld.SysQuotactl.{
  q_getnextquota_cmd, kind_of, subcmd_of, uid_gid_arg, run_as_caller, fetch, submit, fetch_next,
  require_special, q_getinfo, q_setinfo, q_getfmt, q_quotaon, q_quotaoff, q_getquota, q_setquota,
  q_sync, q_getnextquota, dispatch, quotactl,
}

-- What a child does once it is the caller: one call with this command, and what belongs to it.
pub data Body (msg : ProxyMessageBuffer) (cmd : ℤ) : Action SyscallStatus → Type 0 where
  fetches :
      (special : Option Bytes) (id : ℤ) (addr size : ℕ)
      → Body msg cmd (fetch msg cmd special id addr size)
  submits : (special content : Option Bytes) (id : ℤ) → Body msg cmd (submit cmd special id content)
  passes :
      (special content : Option Bytes) (id : ℤ)
      → Body msg cmd (sc_libc_try (sys_quotactl cmd special id content) λ r. pure (done (r.res)))
  fetches_next :
      (special : Option Bytes) (id : ℤ) (idmap : Option IdMap) (addr : ℕ)
      → Body msg cmd (fetch_next msg cmd special id idmap addr)

module _ (msg : ProxyMessageBuffer) (cmd : ℤ) where
  -- The status is that of a child with the capabilities read from the process of the message.
  abbrev pub IsAsCaller : Kernel → SyscallStatus → History → Type 0
  IsAsCaller k s h' =
      (caller : PidFd) × (caps : UserCaps) × (body : Action SyscallStatus) × (h0 : History)
      × (h1 : History) × (msg.pid_fd ≡ some caller)
      × Body msg cmd body
      × (user_caps caller k h0 ≡ (ok caps, h1))
      × (caps.pidfd ≡ caller)
      × (caps.apply_uids ≡ true)
      × (forking_syscall (become caps >> body) k h1 ≡ (ok s, h'))

  -- Each status of this code is of that kind, or one of the two refusals.
  record Delegates (m : Action SyscallStatus) : Type 0 where
    delegates :
        (k : Kernel) (h h' : History) (s : SyscallStatus)
        → s ≢ failed einval
        → s ≢ failed eopnotsupp
        → m k h ≡ (ok s, h')
        → IsAsCaller k s h'

  Delegates-run :
      (body : Action SyscallStatus) → Body msg cmd body → Delegates (run_as_caller msg body)
  unfolding run_as_caller pid_fd_of
  Delegates-run body b = record {
    delegates = λ k h h' s x y e.
        let (caller, h1, e1, f1) = bind_ok (lift (pid_fd_of msg)) _ k h e in
        let (caps, h2, e2, f2) = bind_ok (user_caps caller) _ k h1 f1 in
        let (q, t) = user_caps_pidfd k h1 h2 caller caps e2 in
        (caller, caps, body, h1, h2, ground (arith, e1), b, e2, q, t, f2);
  }

  Delegates-bind {ℓ} :
      {A : Type ℓ} (m : Action A) (f : A → Action SyscallStatus)
      → ((a : A) → Delegates (f a))
      → Delegates (m >>= f)
  Delegates-bind m f d = record {
    delegates = λ k h h' s x y e.
        let (a, h1, e1, f1) = bind_ok m f k h e in (d a).delegates k h1 h' s x y f1;
  }

  Delegates-if :
      (b : Bool) (m n : Action SyscallStatus)
      → Delegates m
      → Delegates n
      → Delegates (if b then m else n)
  Delegates-if true m n p q = p
  Delegates-if false m n p q = q

  Delegates-case :
      (c : ℤ) (m n : Action SyscallStatus)
      → Delegates m
      → Delegates n
      → Delegates (if eq_ℤ (subcmd_of cmd) c then m else n)
  Delegates-case c = Delegates-if (eq_ℤ (subcmd_of cmd) c)

  Delegates-einval : Delegates (refuse einval)
  Delegates-einval = record { delegates = λ k h h' s x y e. absurd (x (ground (arith, e))) }

  Delegates-eopnotsupp : Delegates (refuse eopnotsupp)
  Delegates-eopnotsupp = record { delegates = λ k h h' s x y e. absurd (y (ground (arith, e))) }

  Delegates-special :
      (special : Option Bytes) (next : Option Bytes → Action SyscallStatus)
      → ((s : Bytes) → Delegates (next (some s)))
      → Delegates (require_special special next)
  Delegates-special none next d = Delegates-einval
  Delegates-special (some s) next d = d s

  Delegates-q_getinfo : (special : Option Bytes) → Delegates (q_getinfo msg cmd special)
  unfolding q_getinfo
  Delegates-q_getinfo special = Delegates-bind (lift (arg_int msg 2)) _ λ id.
      Delegates-bind (lift (arg_caddr_t msg 3)) _
        λ addr. Delegates-run _ (fetches special id addr 24)

  Delegates-q_setinfo : (special : Option Bytes) → Delegates (q_setinfo msg cmd special)
  unfolding q_setinfo
  Delegates-q_setinfo special = Delegates-special special _ λ s.
      Delegates-bind (lift (arg_int msg 2)) _ λ id.
        Delegates-bind (arg_struct_by_ptr 24 msg 3) _
          λ content. Delegates-run _ (submits (some s) (some content) id)

  Delegates-q_getfmt : (special : Option Bytes) → Delegates (q_getfmt msg cmd special)
  unfolding q_getfmt
  Delegates-q_getfmt special = Delegates-bind (lift (arg_int msg 2)) _ λ id.
      Delegates-bind (lift (arg_caddr_t msg 3)) _
        λ addr. Delegates-run _ (fetches special id addr 4)

  Delegates-q_quotaon : (special : Option Bytes) → Delegates (q_quotaon msg cmd special)
  unfolding q_quotaon
  Delegates-q_quotaon special = Delegates-bind (lift (arg_int msg 2)) _ λ id.
      Delegates-bind (arg_c_string msg 3) _ λ addr. Delegates-run _ (passes special (some addr) id)

  Delegates-q_quotaoff : (special : Option Bytes) → Delegates (q_quotaoff msg cmd special)
  unfolding q_quotaoff
  Delegates-q_quotaoff special =
      Delegates-bind (lift (arg_int msg 2)) _ λ id. Delegates-run _ (passes special none id)

  Delegates-q_getquota :
      (special : Option Bytes) (kind : ℤ) → Delegates (q_getquota msg cmd special kind)
  unfolding q_getquota
  Delegates-q_getquota special kind = Delegates-special special _ λ s.
      Delegates-bind (uid_gid_arg msg 2 kind) _ λ (id, idmap).
        Delegates-bind (lift (arg_caddr_t msg 3)) _
          λ addr. Delegates-run _ (fetches (some s) id addr 72)

  Delegates-q_setquota :
      (special : Option Bytes) (kind : ℤ) → Delegates (q_setquota msg cmd special kind)
  unfolding q_setquota
  Delegates-q_setquota special kind = Delegates-special special _ λ s.
      Delegates-bind (uid_gid_arg msg 2 kind) _ λ (id, idmap).
        Delegates-bind (arg_struct_by_ptr 72 msg 3) _
          λ content. Delegates-run _ (submits (some s) (some content) id)

  Delegates-q_sync : (special : Option Bytes) → Delegates (q_sync msg cmd special)
  unfolding q_sync
  Delegates-q_sync special =
      Delegates-special special _ λ s. Delegates-run _ (submits (some s) none (pos 0))

  Delegates-q_getnextquota :
      (special : Option Bytes) (kind : ℤ) → Delegates (q_getnextquota msg cmd special kind)
  unfolding q_getnextquota
  Delegates-q_getnextquota special kind = Delegates-special special _ λ s.
      Delegates-bind (uid_gid_arg msg 2 kind) _ λ (id, idmap).
        Delegates-bind (lift (arg_caddr_t msg 3)) _
          λ addr. Delegates-run _ (fetches_next (some s) id idmap addr)

  Delegates-dispatch : (special : Option Bytes) → Delegates (dispatch msg cmd special)
  unfolding dispatch
  Delegates-dispatch special = Delegates-case q_getinfo_cmd _ _ (Delegates-q_getinfo special) (
      Delegates-case q_setinfo_cmd _ _ (Delegates-q_setinfo special) (
        Delegates-case q_getfmt_cmd _ _ (Delegates-q_getfmt special) (
          Delegates-case q_quotaon_cmd _ _ (Delegates-q_quotaon special) (
            Delegates-case q_quotaoff_cmd _ _ (Delegates-q_quotaoff special) (
              Delegates-case q_getquota_cmd _ _ (Delegates-q_getquota special (kind_of cmd)) (
                Delegates-case q_setquota_cmd _ _ (Delegates-q_setquota special (kind_of cmd)) (
                  Delegates-case q_sync_cmd _ _ (Delegates-q_sync special) (
                    Delegates-case q_getnextquota_cmd _ _
                      (Delegates-q_getnextquota special (kind_of cmd))
                      (Delegates-eopnotsupp)))))))))

-- If `quotactl` ends with a status other than EINVAL and EOPNOTSUPP, the status is that of a child that was
-- given the capabilities read from the process of the message, its ids included, and that makes one call
-- with the command of the message.
pub quotactl-IsAsCaller :
    (msg : ProxyMessageBuffer) (k : Kernel) (h h' : History) (s : SyscallStatus)
    → s ≢ failed einval
    → s ≢ failed eopnotsupp
    → quotactl msg k h ≡ (ok s, h')
    → (cmd : ℤ) × (arg_int msg 0 ≡ ok cmd) × IsAsCaller msg cmd k s h'
unfolding quotactl
quotactl-IsAsCaller msg k h h' s x y e =
    let (cmd, h1, e1, f1) = bind_ok (lift (arg_int msg 0)) _ k h e in
    let (special, h2, e2, f2) = bind_ok (arg_opt_c_string msg 1) _ k h1 f1 in
    (cmd, ap (λ r. r.0) e1, (Delegates-dispatch msg cmd special).delegates k h2 h' s x y f2)
