-- ===== src/Guard/Sockets.antt =====
-- `Keeps` for the sockets: src/io/mod.rs and src/io/seq_packet.rs.
use pve_lxc_syscalld.Base.{
  eq_ℤ, minus_one, err, io_kind, kind_other, ℕ, zero, suc, Bool, true, false, Bytes, ◌∷◌, Result,
  if◌then◌else◌,
}
use pve_lxc_syscalld.Kernel.{
  readable, writable, Kernel, History, Call, Reply, recvmsg, sendmsg, socket, bind, listen, accept4,
  register_socket, c_result,
}
use pve_lxc_syscalld.Kernel
use pve_lxc_syscalld.Io.{wrap_loop, wrap_read, wrap_write, would_block}
use pve_lxc_syscalld.Io.SeqPacket.{
  bind_listener, seq_packet_socket, new, accept, sendmsg_vectored, recvmsg_vectored, shutdown,
}
use pve_lxc_syscalld.SysMknod.{DevNumbers}
use pve_lxc_syscalld.Guard.{Within, After, Keeps}
use pve_lxc_syscalld.Guard.Rules.{keeps_result, Allows}
use pve_lxc_syscalld.Guard.Reads.{keeping}

module _ (d : DevNumbers) (k : Kernel) where
  branch :
      (t : Bool) (x y : Result Reply × History)
      → After {0} d k false x
      → After {0} d k false y
      → After {0} d k false (if t then x else y)
  branch true x y p q = p
  branch false x y p q = q

  wrap_loop-After :
      (n : ℕ) (ready c : Call)
      → Allows d k false ready
      → Allows d k false c
      → (h : History) → Within d k false h
      → After d k false (wrap_loop n ready c k h)
  unfolding wrap_loop
  wrap_loop-After zero ready c b a h w = w.0
  wrap_loop-After (suc n) ready c b a h w =
      let r = k.reply (ready ∷ h) c in
      branch (eq_ℤ (k.reply h ready).res minus_one) (err (io_kind kind_other), ready ∷ h) _ (b h w)
        (branch (would_block r) (wrap_loop n ready c k (c ∷ ready ∷ h)) (c_result r, c ∷ ready ∷ h)
          (wrap_loop-After n ready c b a (c ∷ ready ∷ h) (a (ready ∷ h) (b h w)))
          (keeps_result d k false (c_result r) (c ∷ ready ∷ h) (a (ready ∷ h) (b h w))))

  Allows-readable : Allows d k false readable
  Allows-readable h w = ((w.1, w.0), w.1)

  Allows-writable : Allows d k false writable
  Allows-writable h w = ((w.1, w.0), w.1)

  pub Keeps-wrap_read : (c : Call) → Allows d k false c → Keeps d k false (wrap_read c)
  unfolding wrap_read
  Keeps-wrap_read c a = record {
    run = λ h w. wrap_loop-After k.rounds readable c Allows-readable a h w;
  }

  pub Keeps-wrap_write : (c : Call) → Allows d k false c → Keeps d k false (wrap_write c)
  unfolding wrap_write
  Keeps-wrap_write c a = record {
    run = λ h w. wrap_loop-After k.rounds writable c Allows-writable a h w;
  }

  Allows-recvmsg : Allows d k false recvmsg
  Allows-recvmsg h w = ((w.1, w.0), w.1)

  Allows-sendmsg : (content : Bytes) → Allows d k false (sendmsg content)
  Allows-sendmsg content h w = ((w.1, w.0), w.1)

  Allows-shutdown : Allows d k false Kernel.shutdown
  Allows-shutdown h w = ((w.1, w.0), w.1)

  Allows-socket : Allows d k false socket
  Allows-socket h w = ((w.1, w.0), w.1)

  Allows-bind : (address : Bytes) → Allows d k false (bind address)
  Allows-bind address h w = ((w.1, w.0), w.1)

  Allows-listen : (backlog : ℕ) → Allows d k false (listen backlog)
  Allows-listen backlog h w = ((w.1, w.0), w.1)

  Allows-accept4 : Allows d k false accept4
  Allows-accept4 h w = ((w.1, w.0), w.1)

  Allows-register_socket : Allows d k false register_socket
  Allows-register_socket h w = ((w.1, w.0), w.1)

ruleset serving = (
  keeping, Keeps-wrap_read, Keeps-wrap_write, Allows-recvmsg, Allows-sendmsg, Allows-shutdown,
  Allows-socket, Allows-bind, Allows-listen, Allows-accept4, Allows-register_socket,
)

module _ (d : DevNumbers) (k : Kernel) where
  pub Keeps-bind_listener : (address : Bytes) → Keeps d k false (bind_listener address)
  unfolding bind_listener seq_packet_socket
  Keeps-bind_listener address = search serving depth 8

  pub Keeps-accept : Keeps d k false accept
  unfolding accept new
  Keeps-accept = search serving

  pub Keeps-sendmsg_vectored : (content : Bytes) → Keeps d k false (sendmsg_vectored content)
  unfolding sendmsg_vectored
  Keeps-sendmsg_vectored content = search serving

  pub Keeps-recvmsg_vectored :
      (room cmsg_room : ℕ) → Keeps d k false (recvmsg_vectored room cmsg_room)
  unfolding recvmsg_vectored
  Keeps-recvmsg_vectored room cmsg_room = search serving

  pub Keeps-shutdown : Keeps d k false shutdown
  unfolding shutdown
  Keeps-shutdown = search serving
