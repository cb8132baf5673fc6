-- ===== src/SysQuotactl.antt =====
-- src/sys_quotactl.rs: `quotactl` on behalf of a container. Structures are their bytes: 24 of a
-- `dqinfo`, 72 of a `dqblk`, and 80 of the `nextdqblk` that wraps a `dqblk`.
pub mod Answer
pub mod AsCaller
pub mod Ids
pub mod Mapped
pub mod Child
use pve_lxc_syscalld.Base.{
  overwrite, ℕ, ◌+◌, ◌%◌, ◌/◌, ◌^◌, ℤ, pos, eq_ℤ, as_u32, as_u64, try_i32, Bytes, ◌++◌, take, drop,
  replicate, le_bytes, le_value, if◌then◌else◌, Option, some, none, Result, ok, err, or_err, nix,
  os,
}
use pve_lxc_syscalld.Libc.{
  einval, erange, eopnotsupp, q_sync_cmd, q_quotaon_cmd, q_quotaoff_cmd, q_getfmt_cmd,
  q_getinfo_cmd, q_setinfo_cmd, q_getquota_cmd, q_setquota_cmd, usrquota, grpquota, size_of_dqblk,
}
use pve_lxc_syscalld.Kernel.{Action, ◌>>=◌, ◌>>◌, lift, pure, quotactl as sys_quotactl}
use pve_lxc_syscalld.LxcSeccomp.{ProxyMessageBuffer, pid_fd_of}
use pve_lxc_syscalld.LxcSeccomp.Args.{
  arg_int, arg_opt_c_string, arg_c_string, arg_caddr_t, arg_struct_by_ptr, mem_write_struct,
}
use pve_lxc_syscalld.Process.IdMap.{IdMap, map_into, map_from}
use pve_lxc_syscalld.Process.PidFd.{get_uid_map, get_gid_map}
use pve_lxc_syscalld.Process.UserCaps.{user_caps}
use pve_lxc_syscalld.Syscall.{SyscallStatus, done, sc_libc_try, refuse}
use pve_lxc_syscalld.Fork.{forking_syscall}
use pve_lxc_syscalld.SysMknod.{become}

abbrev pub q_getnextquota_cmd : ℤ
q_getnextquota_cmd = pos 0x800009

abbrev pub size_of_dqinfo : ℕ
size_of_dqinfo = 24

-- A `dqblk`, the u32 behind it, and the padding to the alignment of a u64.
abbrev pub size_of_nextdqblk : ℕ
size_of_nextdqblk = size_of_dqblk + 8

-- The caller's capabilities; every handler ends with the call in a child that has taken them on.
unfoldable pub run_as_caller : ProxyMessageBuffer → Action SyscallStatus → Action SyscallStatus
unfolding pid_fd_of user_caps forking_syscall become
run_as_caller msg body = do
  pidfd ← lift (pid_fd_of msg)
  caps ← user_caps pidfd
  forking_syscall (become caps >> body)

-- A buffer of zeros goes to the kernel, and what comes back goes to the caller's memory.
unfoldable pub fetch : ProxyMessageBuffer → ℤ → Option Bytes → ℤ → ℕ → ℕ → Action SyscallStatus
unfolding mem_write_struct
fetch msg cmd special id addr size =
    sc_libc_try (sys_quotactl cmd special id (some (replicate size 0)))
      λ r. mem_write_struct msg addr (overwrite (r.out) (replicate size 0)) >> pure (done (pos 0))

-- The kernel is given `content`, and its result is not passed on.
unfoldable pub submit : ℤ → Option Bytes → ℤ → Option Bytes → Action SyscallStatus
submit cmd special id content =
    sc_libc_try (sys_quotactl cmd special id content) λ r. pure (done (pos 0))

-- `match special { Some(s) => s, None => return Ok(Errno::EINVAL.into()) }`
abbrev pub require_special :
    Option Bytes → (Option Bytes → Action SyscallStatus) → Action SyscallStatus
require_special none next = refuse einval
require_special (some s) next = next (some s)

unfoldable pub q_getinfo : ProxyMessageBuffer → ℤ → Option Bytes → Action SyscallStatus
unfolding arg_int arg_caddr_t run_as_caller fetch
q_getinfo msg cmd special = do
  id ← lift (arg_int msg 2)
  addr ← lift (arg_caddr_t msg 3)
  run_as_caller msg (fetch msg cmd special id addr size_of_dqinfo)

unfoldable pub q_setinfo : ProxyMessageBuffer → ℤ → Option Bytes → Action SyscallStatus
unfolding arg_int arg_struct_by_ptr run_as_caller submit
q_setinfo msg cmd special = require_special special λ s. do
  id ← lift (arg_int msg 2)
  content ← arg_struct_by_ptr size_of_dqinfo msg 3
  run_as_caller msg (submit cmd s id (some content))

unfoldable pub q_getfmt : ProxyMessageBuffer → ℤ → Option Bytes → Action SyscallStatus
unfolding arg_int arg_caddr_t run_as_caller fetch
q_getfmt msg cmd special = do
  id ← lift (arg_int msg 2)
  addr ← lift (arg_caddr_t msg 3)
  run_as_caller msg (fetch msg cmd special id addr 4)

unfoldable pub q_quotaon : ProxyMessageBuffer → ℤ → Option Bytes → Action SyscallStatus
unfolding arg_int arg_c_string run_as_caller
q_quotaon msg cmd special = do
  id ← lift (arg_int msg 2)
  addr ← arg_c_string msg 3
  run_as_caller msg (sc_libc_try (sys_quotactl cmd special id (some addr)) λ r. pure (done (r.res)))

unfoldable pub q_quotaoff : ProxyMessageBuffer → ℤ → Option Bytes → Action SyscallStatus
unfolding arg_int run_as_caller
q_quotaoff msg cmd special = do
  id ← lift (arg_int msg 2)
  run_as_caller msg (sc_libc_try (sys_quotactl cmd special id none) λ r. pure (done (r.res)))

-- The id on the host, of an id that the caller gives as seen in its user namespace.
unfoldable pub map_id : IdMap → ℤ → Action (ℤ × Option IdMap)
unfolding map_from
map_id idmap id = do
  host ← lift (or_err (map_from idmap (as_u64 id)) (nix erange))
  id' ← lift (or_err (try_i32 host) (nix erange))
  pure (id', some idmap)

unfoldable pub uid_gid_arg : ProxyMessageBuffer → ℕ → ℤ → Action (ℤ × Option IdMap)
unfolding arg_int pid_fd_of get_uid_map get_gid_map map_id
uid_gid_arg msg i kind = do
  id ← lift (arg_int msg i)
  if eq_ℤ kind usrquota
      then (lift (pid_fd_of msg) >>= λ p. get_uid_map p >>= λ m. map_id m id)
      else if eq_ℤ kind grpquota
      then (lift (pid_fd_of msg) >>= λ p. get_gid_map p >>= λ m. map_id m id)
      else pure (id, none)

unfoldable pub q_getquota : ProxyMessageBuffer → ℤ → Option Bytes → ℤ → Action SyscallStatus
unfolding uid_gid_arg arg_caddr_t run_as_caller fetch
q_getquota msg cmd special kind = require_special special λ s. do
  (id, idmap) ← uid_gid_arg msg 2 kind
  addr ← lift (arg_caddr_t msg 3)
  run_as_caller msg (fetch msg cmd s id addr size_of_dqblk)

unfoldable pub q_setquota : ProxyMessageBuffer → ℤ → Option Bytes → ℤ → Action SyscallStatus
unfolding uid_gid_arg arg_struct_by_ptr run_as_caller submit
q_setquota msg cmd special kind = require_special special λ s. do
  (id, idmap) ← uid_gid_arg msg 2 kind
  content ← arg_struct_by_ptr size_of_dqblk msg 3
  run_as_caller msg (submit cmd s id (some content))

-- `dqb_id` stands behind the `dqblk`.
unfoldable pub dqb_id : Bytes → ℕ
dqb_id content = le_value (take 4 (drop size_of_dqblk content))

unfoldable pub set_dqb_id : Bytes → ℕ → Bytes
set_dqb_id content id =
    take size_of_dqblk content ++ (le_bytes 4 id ++ drop (size_of_dqblk + 4) content)

-- The id in the answer as the caller's user namespace has it; `as u32` keeps the low bits.
unfoldable pub translate_next : Option IdMap → Bytes → Result Bytes
unfolding dqb_id set_dqb_id map_into
translate_next none content = ok content
translate_next (some idmap) content = elim (map_into idmap (dqb_id content)) [
  | none ↦ err (os erange)
  | some id ↦ ok (set_dqb_id content (id % 2 ^ 32))
]

unfoldable pub fetch_next :
    ProxyMessageBuffer → ℤ → Option Bytes → ℤ → Option IdMap → ℕ → Action SyscallStatus
unfolding translate_next mem_write_struct
fetch_next msg cmd special id idmap addr =
    sc_libc_try (sys_quotactl cmd special id (some (replicate size_of_nextdqblk 0))) λ r. do
      content ← lift (translate_next idmap (overwrite (r.out) (replicate size_of_nextdqblk 0)))
      mem_write_struct msg addr content
      pure (done (pos 0))

unfoldable pub q_getnextquota : ProxyMessageBuffer → ℤ → Option Bytes → ℤ → Action SyscallStatus
unfolding uid_gid_arg arg_caddr_t run_as_caller fetch_next
q_getnextquota msg cmd special kind = require_special special λ s. do
  (id, idmap) ← uid_gid_arg msg 2 kind
  addr ← lift (arg_caddr_t msg 3)
  run_as_caller msg (fetch_next msg cmd s id idmap addr)

unfoldable pub q_sync : ProxyMessageBuffer → ℤ → Option Bytes → Action SyscallStatus
unfolding run_as_caller submit
q_sync msg cmd special = require_special special λ s. run_as_caller msg (submit cmd s (pos 0) none)

-- `cmd & KINDMASK` and `(cmd as c_uint) >> SUBCMDSHIFT`
abbrev pub kind_of : ℤ → ℤ
kind_of cmd = pos (as_u32 cmd % 256)

abbrev pub subcmd_of : ℤ → ℤ
subcmd_of cmd = pos (as_u32 cmd / 256)

-- The `match` on the sub-command.
unfoldable pub dispatch : ProxyMessageBuffer → ℤ → Option Bytes → Action SyscallStatus
unfolding q_getinfo q_setinfo q_getfmt q_quotaon q_quotaoff q_getquota q_setquota q_sync
    q_getnextquota
dispatch msg cmd special =
    let kind = kind_of cmd in
    let subcmd = subcmd_of cmd in
    if eq_ℤ subcmd q_getinfo_cmd
    then q_getinfo msg cmd special
    else if eq_ℤ subcmd q_setinfo_cmd
    then q_setinfo msg cmd special
    else if eq_ℤ subcmd q_getfmt_cmd
    then q_getfmt msg cmd special
    else if eq_ℤ subcmd q_quotaon_cmd
    then q_quotaon msg cmd special
    else if eq_ℤ subcmd q_quotaoff_cmd
    then q_quotaoff msg cmd special
    else if eq_ℤ subcmd q_getquota_cmd
    then q_getquota msg cmd special kind
    else if eq_ℤ subcmd q_setquota_cmd
    then q_setquota msg cmd special kind
    else if eq_ℤ subcmd q_sync_cmd
    then q_sync msg cmd special
    else if eq_ℤ subcmd q_getnextquota_cmd
    then q_getnextquota msg cmd special kind
    else refuse eopnotsupp

unfoldable pub quotactl : ProxyMessageBuffer → Action SyscallStatus
unfolding arg_int arg_opt_c_string dispatch
quotactl msg = do
  cmd ← lift (arg_int msg 0)
  special ← arg_opt_c_string msg 1
  dispatch msg cmd special
