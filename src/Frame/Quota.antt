-- ===== src/Frame/Quota.antt =====
-- `Frames` for the handlers of src/sys_quotactl.rs.
use pve_lxc_syscalld.Base.{ℕ, ℤ, Bytes, Option, none, some}
use pve_lxc_syscalld.Libc.{einval}
use pve_lxc_syscalld.Kernel.{Action}
use pve_lxc_syscalld.Process.IdMap.{IdMap}
use pve_lxc_syscalld.Syscall.{SyscallStatus, failed}
use pve_lxc_syscalld.LxcSeccomp.{ProxyMessageBuffer, pid_fd_of}
use pve_lxc_syscalld.SysQuotactl.{
  run_as_caller, fetch, submit, require_special, q_getinfo, q_setinfo, q_getfmt, q_quotaon,
  q_quotaoff, map_id, uid_gid_arg, q_getquota, q_setquota, fetch_next, q_getnextquota, q_sync,
  dispatch, quotactl,
}
use pve_lxc_syscalld.Frame.{Frames}
use pve_lxc_syscalld.Frame.Returns.{pid_fd_of_returns}
use pve_lxc_syscalld.Frame.Rules.{Frames-bind, Frames-lift, Frames-then, framing, Frames-pure}
use pve_lxc_syscalld.Frame.Reads.{Frames-user_caps, Frames-get_uid_map, Frames-get_gid_map}
use pve_lxc_syscalld.Frame.Child.{Frames-become}
use pve_lxc_syscalld.Frame.Forks.{Frames-forking_syscall}
use pve_lxc_syscalld.Frame.Handlers.{
  Frames-arg_opt_c_string, Frames-arg_c_string, Frames-arg_struct_by_ptr, Frames-mem_write_struct,
  Frames-sc_libc_try,
}

Frames-run_as_caller :
    (msg : ProxyMessageBuffer) (body : Action SyscallStatus)
    → Frames body
    → Frames (run_as_caller msg body)
unfolding run_as_caller
Frames-run_as_caller msg body p =
    Frames-bind _ _ (Frames-lift (pid_fd_of msg) (pid_fd_of_returns msg)) λ pidfd.
      Frames-bind _ _ (Frames-user_caps pidfd)
        λ caps. Frames-forking_syscall _ (Frames-then _ _ (Frames-become caps) p)

Frames-fetch :
    (msg : ProxyMessageBuffer) (cmd : ℤ) (special : Option Bytes) (id : ℤ) (addr size : ℕ)
    → Frames (fetch msg cmd special id addr size)
unfolding fetch
Frames-fetch msg cmd special id addr size =
    search (framing, Frames-sc_libc_try, Frames-mem_write_struct)

Frames-submit :
    (cmd : ℤ) (special : Option Bytes) (id : ℤ) (content : Option Bytes)
    → Frames (submit cmd special id content)
unfolding submit
Frames-submit cmd special id content = search (framing, Frames-sc_libc_try)

Frames-fetch_next :
    (msg : ProxyMessageBuffer) (cmd : ℤ) (special : Option Bytes) (id : ℤ) (m : Option IdMap)
    (addr : ℕ)
    → Frames (fetch_next msg cmd special id m addr)
unfolding fetch_next
Frames-fetch_next msg cmd special id m addr =
    search (framing, Frames-sc_libc_try, Frames-mem_write_struct) depth 8

Frames-require :
    (special : Option Bytes) (next : Option Bytes → Action SyscallStatus)
    → ((s : Option Bytes) → Frames (next s))
    → Frames (require_special special next)
Frames-require none next p = Frames-pure (failed einval)
Frames-require (some s) next p = p (some s)

Frames-map_id : (m : IdMap) (id : ℤ) → Frames (map_id m id)
unfolding map_id
Frames-map_id m id = search framing

Frames-uid_gid_arg : (msg : ProxyMessageBuffer) (i : ℕ) (kind : ℤ) → Frames (uid_gid_arg msg i kind)
unfolding uid_gid_arg
Frames-uid_gid_arg msg i kind =
    search (framing, Frames-get_uid_map, Frames-get_gid_map, Frames-map_id) depth 10

ruleset running = (
  framing, Frames-run_as_caller, Frames-fetch, Frames-submit, Frames-fetch_next, Frames-require,
  Frames-uid_gid_arg, Frames-arg_struct_by_ptr, Frames-arg_c_string, Frames-sc_libc_try,
)

Frames-q_getinfo :
    (msg : ProxyMessageBuffer) (cmd : ℤ) (s : Option Bytes) → Frames (q_getinfo msg cmd s)
unfolding q_getinfo
Frames-q_getinfo msg cmd s = search running depth 9

Frames-q_setinfo :
    (msg : ProxyMessageBuffer) (cmd : ℤ) (s : Option Bytes) → Frames (q_setinfo msg cmd s)
unfolding q_setinfo
Frames-q_setinfo msg cmd s = search running depth 9

Frames-q_getfmt :
    (msg : ProxyMessageBuffer) (cmd : ℤ) (s : Option Bytes) → Frames (q_getfmt msg cmd s)
unfolding q_getfmt
Frames-q_getfmt msg cmd s = search running depth 9

Frames-q_quotaon :
    (msg : ProxyMessageBuffer) (cmd : ℤ) (s : Option Bytes) → Frames (q_quotaon msg cmd s)
unfolding q_quotaon
Frames-q_quotaon msg cmd s = search running depth 9

Frames-q_quotaoff :
    (msg : ProxyMessageBuffer) (cmd : ℤ) (s : Option Bytes) → Frames (q_quotaoff msg cmd s)
unfolding q_quotaoff
Frames-q_quotaoff msg cmd s = search running depth 9

Frames-q_getquota :
    (msg : ProxyMessageBuffer) (cmd : ℤ) (s : Option Bytes) (kind : ℤ)
    → Frames (q_getquota msg cmd s kind)
unfolding q_getquota
Frames-q_getquota msg cmd s kind = search running depth 9

Frames-q_setquota :
    (msg : ProxyMessageBuffer) (cmd : ℤ) (s : Option Bytes) (kind : ℤ)
    → Frames (q_setquota msg cmd s kind)
unfolding q_setquota
Frames-q_setquota msg cmd s kind = search running depth 9

Frames-q_getnextquota :
    (msg : ProxyMessageBuffer) (cmd : ℤ) (s : Option Bytes) (kind : ℤ)
    → Frames (q_getnextquota msg cmd s kind)
unfolding q_getnextquota
Frames-q_getnextquota msg cmd s kind = search running depth 9

Frames-q_sync : (msg : ProxyMessageBuffer) (cmd : ℤ) (s : Option Bytes) → Frames (q_sync msg cmd s)
unfolding q_sync
Frames-q_sync msg cmd s = search running depth 9

Frames-dispatch :
    (msg : ProxyMessageBuffer) (cmd : ℤ) (s : Option Bytes) → Frames (dispatch msg cmd s)
unfolding dispatch
Frames-dispatch msg cmd s =
    search
      (
        framing, Frames-q_getinfo, Frames-q_setinfo, Frames-q_getfmt, Frames-q_quotaon,
        Frames-q_quotaoff, Frames-q_getquota, Frames-q_setquota, Frames-q_getnextquota,
        Frames-q_sync,
      )
      depth 14

pub Frames-quotactl : (msg : ProxyMessageBuffer) → Frames (quotactl msg)
unfolding quotactl
Frames-quotactl msg = search (framing, Frames-arg_opt_c_string, Frames-dispatch) depth 8
