-- ===== src/Io.antt =====
-- src/io: sockets, pipes and control messages.
pub mod Cmsg
pub mod Pipe
pub mod SeqPacket
pub mod Waiting
use pve_lxc_syscalld.Base.{
  ℕ, zero, suc, minus_one, eq_ℤ, ◌&&◌, Bool, if◌then◌else◌, hang, err, io_kind, kind_other, ◌∷◌,
}
use pve_lxc_syscalld.Libc.{eagain}
use pve_lxc_syscalld.Kernel.{readable, writable, Action, Call, Reply, c_result}

-- `err.kind() == WouldBlock` on the outcome of `c_result!`
abbrev pub would_block : Reply → Bool
would_block r = eq_ℤ r.res minus_one && eq_ℤ r.errno eagain

-- The loop of `wrap_read` and `wrap_write`: wait until the socket is ready, and make the call, again as
-- long as it would block. A wait fails with an error of no number, at the end of the runtime.
unfoldable pub wrap_loop : ℕ → Call → Call → Action Reply
unfolding c_result
wrap_loop zero ready c k h = (hang, h)
wrap_loop (suc n) ready c k h =
    let again = wrap_loop n ready c k (c ∷ ready ∷ h) in
    let r = k.reply (ready ∷ h) c in
    if eq_ℤ (k.reply h ready).res minus_one
    then (err (io_kind kind_other), ready ∷ h)
    else if would_block r
    then again
    else (c_result r, c ∷ ready ∷ h)

unfoldable pub wrap_read : Call → Action Reply
unfolding wrap_loop
wrap_read c k = wrap_loop k.rounds readable c k

unfoldable pub wrap_write : Call → Action Reply
unfolding wrap_loop
wrap_write c k = wrap_loop k.rounds writable c k
