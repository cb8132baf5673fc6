-- ===== src/Client.antt =====
-- src/client.rs: one connection of an lxc monitor.
pub mod Answers
pub mod First
pub mod Handled
pub mod Shape
pub mod Due
pub mod Mute
pub mod Dialogue
pub mod Replies
pub mod Ending
pub mod Conversation
pub mod Steps
use pve_lxc_syscalld.Base.{
  ℕ, zero, suc, pos, minus_one, neg_i32, Bytes, if◌then◌else◌, Option, some, none, nix, os, Result,
  ok, err, hang,
}
use pve_lxc_syscalld.Libc.{enosys}
use pve_lxc_syscalld.Kernel.{owning, Action, ◌>>=◌, ◌>>◌, lift, pure, attempt}
use pve_lxc_syscalld.Io.SeqPacket.{shutdown}
use pve_lxc_syscalld.Seccomp.{SeccompNotifSizes}
use pve_lxc_syscalld.LxcSeccomp.{held, ProxyMessageBuffer, request, response_mut, recv, respond}
use pve_lxc_syscalld.LxcSeccomp
use pve_lxc_syscalld.Syscall.{SyscallStatus, done, failed, Syscall, translate_syscall, refuse}
use pve_lxc_syscalld.SysMknod
use pve_lxc_syscalld.SysMknod.{DevNumbers}
use pve_lxc_syscalld.SysQuotactl

-- What `handle_syscall` makes of the outcome: errors with a number become a status.
unfoldable pub status_or_error : Result SyscallStatus → Result SyscallStatus
status_or_error (err (nix e)) = ok (failed e)
status_or_error (err (os e)) = ok (failed e)
status_or_error other = other

unfoldable pub set_response : ProxyMessageBuffer → SyscallStatus → ProxyMessageBuffer
set_response msg (done val) = response_mut msg λ resp. record resp { val = val; error = pos 0 }
set_response msg (failed e) =
    response_mut msg λ resp. record resp { val = minus_one; error = neg_i32 e }

-- `wrap_error`: after an error the socket is shut down, and an error of that is only printed.
unfoldable pub wrap_error : Result (Unit {0}) → Action (Unit {0})
unfolding shutdown
wrap_error (err e) = attempt shutdown >> pure tt
wrap_error other = lift other

module _ (dev_numbers : DevNumbers) where
  -- The `match` on the translated system call.
  unfoldable pub run_syscall : Option Syscall → ProxyMessageBuffer → Action SyscallStatus
  unfolding SysMknod.mknod SysMknod.mknodat SysQuotactl.quotactl
  run_syscall none msg = refuse enosys
  run_syscall (some Syscall.mknod) msg = SysMknod.mknod dev_numbers msg
  run_syscall (some Syscall.mknodat) msg = SysMknod.mknodat dev_numbers msg
  run_syscall (some Syscall.quotactl) msg = SysQuotactl.quotactl msg

  unfoldable pub handle_syscall_do : ProxyMessageBuffer → Action SyscallStatus
  unfolding run_syscall translate_syscall
  handle_syscall_do msg =
      run_syscall (translate_syscall (request msg).call.arch (request msg).call.nr) msg

  -- The buffer with the response that was sent.
  unfoldable pub handle_syscall : ProxyMessageBuffer → Action ProxyMessageBuffer
  unfolding handle_syscall_do status_or_error set_response respond
  handle_syscall msg = do
    outcome ← attempt (handle_syscall_do msg)
    status ← lift (status_or_error outcome)
    let msg' = set_response msg status
    respond msg'
    pure msg'

  -- The loop of `main_do`, for a number of messages.
  unfoldable pub serve : ℕ → ProxyMessageBuffer → Action (Unit {0})
  unfolding recv handle_syscall
  serve zero msg = lift hang
  serve (suc n) msg = recv msg >>= λ (more, msg').
      let next = (owning (held msg') (handle_syscall msg') >>= λ msg''. serve n msg'') in
      if more then next else pure tt

  -- `new(64)`, on memory for the cookie as the allocator gives it
  unfoldable pub main_do : SeccompNotifSizes → Bytes → Action (Unit {0})
  unfolding serve LxcSeccomp.new
  main_do sizes cookie_mem k = serve k.rounds (LxcSeccomp.new sizes cookie_mem) k

  unfoldable pub main : SeccompNotifSizes → Bytes → Action (Unit {0})
  unfolding main_do wrap_error
  main sizes cookie_mem = do outcome ← attempt (main_do sizes cookie_mem); wrap_error outcome

  -- The task of the process' first client, which finds the sizes. They are needed before anything else, and
  -- a panic there passes through `wrap_error`.
  unfoldable pub first_main : Bytes → Action (Unit {0})
  unfolding LxcSeccomp.seccomp_sizes main
  first_main cookie_mem = do sizes ← LxcSeccomp.seccomp_sizes; main sizes cookie_mem
