-- ===== src/Guard/Connection.antt =====
-- `Keeps` for the connection: src/client.rs, and receiving and responding in src/lxcseccomp.rs.
use pve_lxc_syscalld.Base.{
  ◌∷◌, ℤ, List, ℕ, zero, suc, false, Bytes, length, [], Option, none, some, Result, ok, err, panic,
  hang, refl, ◌==◌,
}
use pve_lxc_syscalld.Kernel.{close, left_with, dropped, owning, close_all, Kernel, History}
use pve_lxc_syscalld.Kernel.Laws.{close_all_drops}
use pve_lxc_syscalld.Seccomp.{SeccompNotifSizes}
use pve_lxc_syscalld.LxcSeccomp.{
  held, reset_drops, ProxyMessageBuffer, two_fds, set_len, accept_message, scatter, reset,
  iovec_size, recv, respond,
}
use pve_lxc_syscalld.LxcSeccomp
use pve_lxc_syscalld.Libc.{enosys}
use pve_lxc_syscalld.Syscall.{Syscall, failed}
use pve_lxc_syscalld.SysMknod.{DevNumbers}
use pve_lxc_syscalld.Client.{
  wrap_error, run_syscall, handle_syscall_do, handle_syscall, serve, main_do, main,
}
use pve_lxc_syscalld.Guard.{Action, Within, Safe, After, Keeps}
use pve_lxc_syscalld.Guard.Rules.{
  Keeps-lift, Keeps-pure, Keeps-bind, Keeps-then, Keeps-attempt, Keeps-if,
}
use pve_lxc_syscalld.Guard.Reads.{keeping, Keeps-try_from_fd}
use pve_lxc_syscalld.Io.Cmsg.{capacity}
use pve_lxc_syscalld.Guard.Sockets.{Keeps-sendmsg_vectored, Keeps-recvmsg_vectored, Keeps-shutdown}
use pve_lxc_syscalld.Guard.Handlers.{Keeps-mknod, Keeps-mknodat}
use pve_lxc_syscalld.Guard.Quota.{Keeps-quotactl}

module _ (d : DevNumbers) (k : Kernel) where
  -- Descriptors are dropped by the daemon, not by its children.
  close_all-Within :
      (fds : List ℤ) (h : History) → Within d k false h → Within d k false (dropped fds h)
  close_all-Within [] h w = w
  close_all-Within (fd ∷ fds) h w = close_all-Within fds (close fd ∷ h) ((w.1, w.0), w.1)

  Keeps-close_all : (fds : List ℤ) → Keeps d k false (close_all fds)
  Keeps-close_all fds = record {
    run = λ h w. rw (close_all_drops fds k h) (close_all-Within fds h w);
  }

  Keeps-owning {ℓ} :
      {A : Type ℓ} (fds : List ℤ) (m : Action A)
      → Keeps d k false m
      → Keeps d k false (owning fds m)
  Keeps-owning {A} fds m p = record { run = λ h w. left (m k h) (p.run h w) }
    where
      left : (x : Result A × History) → After d k false x → After d k false (left_with fds x k)
      left (ok a, h) w = w
      left (err e, h) w = rw (close_all_drops fds k h) (close_all-Within fds h w)
      left (panic, h) w = rw (close_all_drops fds k h) (close_all-Within fds h w)
      left (hang, h) w = w

  Keeps-accept_message :
      (b : ProxyMessageBuffer) (received control : Bytes)
      → Keeps d k false (accept_message b received control)
  unfolding accept_message
  Keeps-accept_message b received control =
      search (keeping, Keeps-owning, Keeps-try_from_fd) depth 9

  Keeps-recv : (b : ProxyMessageBuffer) → Keeps d k false (recv b)
  unfolding recv
  Keeps-recv b = Keeps-then d k false _ _ (Keeps-close_all (reset_drops b)) (
      Keeps-bind d k false _ _ (Keeps-recvmsg_vectored d k (iovec_size b) (capacity 8))
        λ (received, control).
          let b' = scatter (reset b) received in
          Keeps-if d k false (length received == 0) _ _ (Keeps-pure d k false (false, b'))
            (Keeps-accept_message b' received control))

  Keeps-respond : (b : ProxyMessageBuffer) → Keeps d k false (respond b)
  unfolding respond
  Keeps-respond b = search (keeping, Keeps-sendmsg_vectored)

  Keeps-run_syscall :
      (s : Option Syscall) (msg : ProxyMessageBuffer) → Keeps d k false (run_syscall d s msg)
  unfolding run_syscall
  Keeps-run_syscall none msg = Keeps-pure d k false (failed enosys)
  Keeps-run_syscall (some Syscall.mknod) msg = Keeps-mknod d k msg
  Keeps-run_syscall (some Syscall.mknodat) msg = Keeps-mknodat d k msg
  Keeps-run_syscall (some Syscall.quotactl) msg = Keeps-quotactl d k msg

  Keeps-handle_syscall_do : (msg : ProxyMessageBuffer) → Keeps d k false (handle_syscall_do d msg)
  unfolding handle_syscall_do
  Keeps-handle_syscall_do msg = Keeps-run_syscall _ msg

  Keeps-handle_syscall : (msg : ProxyMessageBuffer) → Keeps d k false (handle_syscall d msg)
  unfolding handle_syscall
  Keeps-handle_syscall msg = search (keeping, Keeps-handle_syscall_do, Keeps-respond) depth 8

  Keeps-serve : (n : ℕ) (msg : ProxyMessageBuffer) → Keeps d k false (serve d n msg)
  unfolding serve
  Keeps-serve zero msg = Keeps-lift d k false hang
  Keeps-serve (suc n) msg = Keeps-bind d k false _ _ (Keeps-recv msg) λ x.
      Keeps-if d k false x.0 _ _
        (Keeps-bind d k false _ _ (Keeps-owning (held x.1) _ (Keeps-handle_syscall x.1))
          (Keeps-serve n))
        (Keeps-pure d k false tt)

  Keeps-main_do : (sizes : SeccompNotifSizes) (mem : Bytes) → Keeps d k false (main_do d sizes mem)
  unfolding main_do
  Keeps-main_do sizes mem = record {
    run = λ h w. (Keeps-serve k.rounds (LxcSeccomp.new sizes mem)).run h w;
  }

  Keeps-wrap_error : (r : Result (Unit {0})) → Keeps d k false (wrap_error r)
  unfolding wrap_error
  Keeps-wrap_error (ok a) = Keeps-lift d k false (ok a)
  Keeps-wrap_error (err e) =
      Keeps-then d k false _ _ (Keeps-attempt d k false _ (Keeps-shutdown d k))
        (Keeps-pure d k false tt)
  Keeps-wrap_error panic = Keeps-lift d k false panic
  Keeps-wrap_error hang = Keeps-lift d k false hang

  Keeps-main : (sizes : SeccompNotifSizes) (mem : Bytes) → Keeps d k false (main d sizes mem)
  unfolding main
  Keeps-main sizes mem =
      Keeps-bind d k false _ _ (Keeps-attempt d k false _ (Keeps-main_do sizes mem))
        Keeps-wrap_error

-- Whatever the kernel replies, the other processes included, and however long the connection is served:
-- each call of the daemon and its children is made where it may be. A child runs from a fork that has
-- succeeded to its exit. It makes `mknodat` or `quotactl` only right after it has made all the calls of a
-- takeover of what `user_caps` read of some process, ids included, and `mknodat` only of one of the
-- ten safe devices. Calls that change a process' root, directory, namespace, umask, ids or
-- capabilities, or that write anywhere but into the client's socket, are made by a child only.
pub main-Safe :
    (d : DevNumbers) (sizes : SeccompNotifSizes) (mem : Bytes) (k : Kernel)
    → Safe d k (main d sizes mem k []).1
main-Safe d sizes mem k =
    safe_of (main d sizes mem k []) ((Keeps-main d k sizes mem).run [] (tt, refl))
  where
    safe_of : (x : Result (Unit {0}) × History) → After {0} d k false x → Safe d k x.1
    safe_of (ok a, h) w = w.0
    safe_of (err e, h) w = w.0
    safe_of (panic, h) w = w.0
    safe_of (hang, h) w = w
