-- ===== src/Guard/Quota.antt =====
-- `Keeps` for the handlers of src/sys_quotactl.rs.
use pve_lxc_syscalld.Base.{
  overwrite, ℕ, ℤ, pos, eq_ℤ, true, false, Bytes, replicate, Option, none, some,
}
use pve_lxc_syscalld.Libc.{
  einval, eopnotsupp, size_of_dqblk, q_sync_cmd, q_quotaon_cmd, q_quotaoff_cmd, q_getfmt_cmd,
  q_getinfo_cmd, q_setinfo_cmd, q_getquota_cmd, q_setquota_cmd,
}
use pve_lxc_syscalld.Kernel.{Kernel, Action, Reply, ◌>>◌, pure, quotactl as sys_quotactl}
use pve_lxc_syscalld.Process.IdMap.{IdMap}
use pve_lxc_syscalld.Process.UserCaps.{user_caps}
use pve_lxc_syscalld.Syscall.{SyscallStatus, done, failed, sc_libc_try}
use pve_lxc_syscalld.LxcSeccomp.{ProxyMessageBuffer, pid_fd_of}
use pve_lxc_syscalld.LxcSeccomp.Args.{arg_int, arg_caddr_t, mem_write_struct}
use pve_lxc_syscalld.SysMknod.{DevNumbers}
use pve_lxc_syscalld.SysQuotactl.{
  run_as_caller, fetch, submit, require_special, q_getinfo, q_setinfo, q_getfmt, q_quotaon,
  q_quotaoff, map_id, uid_gid_arg, q_getquota, q_setquota, translate_next, fetch_next,
  q_getnextquota, q_sync, kind_of, subcmd_of, dispatch, quotactl, size_of_dqinfo, size_of_nextdqblk,
  q_getnextquota_cmd,
}
use pve_lxc_syscalld.SysMknod.AsCaller.{user_caps_pidfd}
use pve_lxc_syscalld.Guard.{Keeps}
use pve_lxc_syscalld.Guard.Rules.{
  Keeps-lift, Keeps-pure, Keeps-bind, Keeps-bind_ok, Keeps-then, Keeps-if,
}
use pve_lxc_syscalld.Guard.Reads.{keeping, Keeps-user_caps, Keeps-get_uid_map, Keeps-get_gid_map}
use pve_lxc_syscalld.Guard.Forks.{Keeps-forking_syscall}
use pve_lxc_syscalld.Guard.Handlers.{
  Keeps-arg_opt_c_string, Keeps-arg_c_string, Keeps-arg_struct_by_ptr, Keeps-mem_write_struct,
  AfterTakeover, sc_libc_try-After, Keeps-as_caller,
}

module _ (d : DevNumbers) (k : Kernel) where
  Keeps-run_as_caller :
      (msg : ProxyMessageBuffer) (body : Action SyscallStatus)
      → AfterTakeover d k body
      → Keeps d k false (run_as_caller msg body)
  unfolding run_as_caller
  Keeps-run_as_caller msg body p =
      Keeps-bind d k false _ _ (Keeps-lift d k false (pid_fd_of msg)) λ pidfd.
        Keeps-bind_ok d k false (user_caps pidfd) _ (Keeps-user_caps d k false pidfd) λ h u h' e w.
          (Keeps-forking_syscall d k _ (
              Keeps-as_caller d k u body (user_caps_pidfd k h h' pidfd u e).1 (pidfd, h, h', e)
                p)).run
            h' w

  -- The quotactl of a child that has taken over.
  quota_After :
      (cmd : ℤ) (special : Option Bytes) (id : ℤ) (addr : Option Bytes)
      (next : Reply → Action SyscallStatus)
      → ((r : Reply) → Keeps d k true (next r))
      → AfterTakeover d k (sc_libc_try (sys_quotactl cmd special id addr) next)
  quota_After cmd special id addr next p h entered w =
      sc_libc_try-After d k (sys_quotactl cmd special id addr) next h (((w.1, entered), w.0), w.1) p

  fetch_After :
      (msg : ProxyMessageBuffer) (cmd : ℤ) (special : Option Bytes) (id : ℤ) (addr size : ℕ)
      → AfterTakeover d k (fetch msg cmd special id addr size)
  unfolding fetch
  fetch_After msg cmd special id addr size =
      quota_After cmd special id (some (replicate size 0))
        (λ r. mem_write_struct msg addr (overwrite r.out (replicate size 0)) >> pure (done (pos 0)))
        λ r.
          Keeps-then d k true _ _ (Keeps-mem_write_struct d k msg addr _)
            (Keeps-pure d k true (done (pos 0)))

  submit_After :
      (cmd : ℤ) (special : Option Bytes) (id : ℤ) (content : Option Bytes)
      → AfterTakeover d k (submit cmd special id content)
  unfolding submit
  submit_After cmd special id content =
      quota_After cmd special id content (λ r. pure (done (pos 0)))
        λ r. Keeps-pure d k true (done (pos 0))

  passed_After :
      (cmd : ℤ) (special : Option Bytes) (id : ℤ) (addr : Option Bytes)
      → AfterTakeover d k (sc_libc_try (sys_quotactl cmd special id addr) λ r. pure (done r.res))
  passed_After cmd special id addr =
      quota_After cmd special id addr (λ r. pure (done r.res)) λ r. Keeps-pure d k true (done r.res)

  fetch_next_After :
      (msg : ProxyMessageBuffer) (cmd : ℤ) (special : Option Bytes) (id : ℤ) (m : Option IdMap)
      (addr : ℕ)
      → AfterTakeover d k (fetch_next msg cmd special id m addr)
  unfolding fetch_next
  fetch_next_After msg cmd special id m addr =
      quota_After cmd special id (some (replicate size_of_nextdqblk 0)) _ λ r.
        Keeps-bind d k true _ _
          (Keeps-lift d k true (translate_next m (overwrite r.out (replicate size_of_nextdqblk 0))))
          λ content.
            Keeps-then d k true _ _ (Keeps-mem_write_struct d k msg addr content)
              (Keeps-pure d k true (done (pos 0)))

  Keeps-require :
      (special : Option Bytes) (next : Option Bytes → Action SyscallStatus)
      → ((s : Option Bytes) → Keeps d k false (next s))
      → Keeps d k false (require_special special next)
  Keeps-require none next p = Keeps-pure d k false (failed einval)
  Keeps-require (some s) next p = p (some s)

  Keeps-map_id : (m : IdMap) (id : ℤ) → Keeps d k false (map_id m id)
  unfolding map_id
  Keeps-map_id m id = search keeping

  Keeps-uid_gid_arg :
      (msg : ProxyMessageBuffer) (i : ℕ) (kind : ℤ) → Keeps d k false (uid_gid_arg msg i kind)
  unfolding uid_gid_arg
  Keeps-uid_gid_arg msg i kind =
      search (keeping, Keeps-get_uid_map, Keeps-get_gid_map, Keeps-map_id) depth 10

  Keeps-q_getinfo :
      (msg : ProxyMessageBuffer) (cmd : ℤ) (s : Option Bytes)
      → Keeps d k false (q_getinfo msg cmd s)
  unfolding q_getinfo
  Keeps-q_getinfo msg cmd s = Keeps-bind d k false _ _ (Keeps-lift d k false (arg_int msg 2)) λ id.
      Keeps-bind d k false _ _ (Keeps-lift d k false (arg_caddr_t msg 3))
        λ addr. Keeps-run_as_caller msg _ (fetch_After msg cmd s id addr size_of_dqinfo)

  Keeps-q_setinfo :
      (msg : ProxyMessageBuffer) (cmd : ℤ) (s : Option Bytes)
      → Keeps d k false (q_setinfo msg cmd s)
  unfolding q_setinfo
  Keeps-q_setinfo msg cmd special = Keeps-require special _ λ s.
      Keeps-bind d k false _ _ (Keeps-lift d k false (arg_int msg 2)) λ id.
        Keeps-bind d k false _ _ (Keeps-arg_struct_by_ptr d k false size_of_dqinfo msg 3)
          λ content. Keeps-run_as_caller msg _ (submit_After cmd s id (some content))

  Keeps-q_getfmt :
      (msg : ProxyMessageBuffer) (cmd : ℤ) (s : Option Bytes) → Keeps d k false (q_getfmt msg cmd s)
  unfolding q_getfmt
  Keeps-q_getfmt msg cmd s = Keeps-bind d k false _ _ (Keeps-lift d k false (arg_int msg 2)) λ id.
      Keeps-bind d k false _ _ (Keeps-lift d k false (arg_caddr_t msg 3))
        λ addr. Keeps-run_as_caller msg _ (fetch_After msg cmd s id addr 4)

  Keeps-q_quotaon :
      (msg : ProxyMessageBuffer) (cmd : ℤ) (s : Option Bytes)
      → Keeps d k false (q_quotaon msg cmd s)
  unfolding q_quotaon
  Keeps-q_quotaon msg cmd s = Keeps-bind d k false _ _ (Keeps-lift d k false (arg_int msg 2)) λ id.
      Keeps-bind d k false _ _ (Keeps-arg_c_string d k false msg 3)
        λ addr. Keeps-run_as_caller msg _ (passed_After cmd s id (some addr))

  Keeps-q_quotaoff :
      (msg : ProxyMessageBuffer) (cmd : ℤ) (s : Option Bytes)
      → Keeps d k false (q_quotaoff msg cmd s)
  unfolding q_quotaoff
  Keeps-q_quotaoff msg cmd s =
      Keeps-bind d k false _ _ (Keeps-lift d k false (arg_int msg 2))
        λ id. Keeps-run_as_caller msg _ (passed_After cmd s id none)

  Keeps-q_getquota :
      (msg : ProxyMessageBuffer) (cmd : ℤ) (s : Option Bytes) (kind : ℤ)
      → Keeps d k false (q_getquota msg cmd s kind)
  unfolding q_getquota
  Keeps-q_getquota msg cmd special kind = Keeps-require special _ λ s.
      Keeps-bind d k false _ _ (Keeps-uid_gid_arg msg 2 kind) λ x.
        Keeps-bind d k false _ _ (Keeps-lift d k false (arg_caddr_t msg 3))
          λ addr. Keeps-run_as_caller msg _ (fetch_After msg cmd s x.0 addr size_of_dqblk)

  Keeps-q_setquota :
      (msg : ProxyMessageBuffer) (cmd : ℤ) (s : Option Bytes) (kind : ℤ)
      → Keeps d k false (q_setquota msg cmd s kind)
  unfolding q_setquota
  Keeps-q_setquota msg cmd special kind = Keeps-require special _ λ s.
      Keeps-bind d k false _ _ (Keeps-uid_gid_arg msg 2 kind) λ x.
        Keeps-bind d k false _ _ (Keeps-arg_struct_by_ptr d k false size_of_dqblk msg 3)
          λ content. Keeps-run_as_caller msg _ (submit_After cmd s x.0 (some content))

  Keeps-q_getnextquota :
      (msg : ProxyMessageBuffer) (cmd : ℤ) (s : Option Bytes) (kind : ℤ)
      → Keeps d k false (q_getnextquota msg cmd s kind)
  unfolding q_getnextquota
  Keeps-q_getnextquota msg cmd special kind = Keeps-require special _ λ s.
      Keeps-bind d k false _ _ (Keeps-uid_gid_arg msg 2 kind) λ x.
        Keeps-bind d k false _ _ (Keeps-lift d k false (arg_caddr_t msg 3))
          λ addr. Keeps-run_as_caller msg _ (fetch_next_After msg cmd s x.0 x.1 addr)

  Keeps-q_sync :
      (msg : ProxyMessageBuffer) (cmd : ℤ) (s : Option Bytes) → Keeps d k false (q_sync msg cmd s)
  unfolding q_sync
  Keeps-q_sync msg cmd special =
      Keeps-require special _ λ s. Keeps-run_as_caller msg _ (submit_After cmd s (pos 0) none)

  Keeps-dispatch :
      (msg : ProxyMessageBuffer) (cmd : ℤ) (s : Option Bytes) → Keeps d k false (dispatch msg cmd s)
  unfolding dispatch
  Keeps-dispatch msg cmd s =
      let sub = subcmd_of cmd in
      let kind = kind_of cmd in
      Keeps-if d k false (eq_ℤ sub q_getinfo_cmd) _ _ (Keeps-q_getinfo msg cmd s) (
        Keeps-if d k false (eq_ℤ sub q_setinfo_cmd) _ _ (Keeps-q_setinfo msg cmd s) (
          Keeps-if d k false (eq_ℤ sub q_getfmt_cmd) _ _ (Keeps-q_getfmt msg cmd s) (
            Keeps-if d k false (eq_ℤ sub q_quotaon_cmd) _ _ (Keeps-q_quotaon msg cmd s) (
              Keeps-if d k false (eq_ℤ sub q_quotaoff_cmd) _ _ (Keeps-q_quotaoff msg cmd s) (
                Keeps-if d k false (eq_ℤ sub q_getquota_cmd) _ _ (Keeps-q_getquota msg cmd s kind) (
                  Keeps-if d k false (eq_ℤ sub q_setquota_cmd) _ _ (Keeps-q_setquota msg cmd s kind)
                    (Keeps-if d k false (eq_ℤ sub q_sync_cmd) _ _ (Keeps-q_sync msg cmd s) (
                      Keeps-if d k false (eq_ℤ sub q_getnextquota_cmd) _ _
                        (Keeps-q_getnextquota msg cmd s kind)
                        (Keeps-pure d k false (failed eopnotsupp))))))))))

  pub Keeps-quotactl : (msg : ProxyMessageBuffer) → Keeps d k false (quotactl msg)
  unfolding quotactl
  Keeps-quotactl msg = Keeps-bind d k false _ _ (Keeps-lift d k false (arg_int msg 0)) λ cmd.
      Keeps-bind d k false _ _ (Keeps-arg_opt_c_string d k false msg 1) (Keeps-dispatch msg cmd)
