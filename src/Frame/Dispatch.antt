-- ===== src/Frame/Dispatch.antt =====
-- `Frames` for the choice of a handler in src/client.rs.
use pve_lxc_syscalld.Base.{Option, none, some}
use pve_lxc_syscalld.Libc.{enosys}
use pve_lxc_syscalld.LxcSeccomp.{ProxyMessageBuffer}
use pve_lxc_syscalld.Syscall.{Syscall, failed}
use pve_lxc_syscalld.SysMknod.{DevNumbers}
use pve_lxc_syscalld.Client.{run_syscall, handle_syscall_do}
use pve_lxc_syscalld.Frame.{Frames}
use pve_lxc_syscalld.Frame.Rules.{Frames-pure}
use pve_lxc_syscalld.Frame.Handlers.{Frames-mknod, Frames-mknodat}
use pve_lxc_syscalld.Frame.Quota.{Frames-quotactl}

module _ (d : DevNumbers) where
  Frames-run_syscall :
      (s : Option Syscall) (msg : ProxyMessageBuffer) → Frames (run_syscall d s msg)
  unfolding run_syscall
  Frames-run_syscall none msg = Frames-pure (failed enosys)
  Frames-run_syscall (some Syscall.mknod) msg = Frames-mknod d msg
  Frames-run_syscall (some Syscall.mknodat) msg = Frames-mknodat d msg
  Frames-run_syscall (some Syscall.quotactl) msg = Frames-quotactl msg

  pub Frames-handle_syscall_do : (msg : ProxyMessageBuffer) → Frames (handle_syscall_do d msg)
  unfolding handle_syscall_do
  Frames-handle_syscall_do msg = Frames-run_syscall _ msg
