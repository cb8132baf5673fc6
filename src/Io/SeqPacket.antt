-- ===== src/Io/SeqPacket.antt =====
-- src/io/seq_packet.rs: the listening socket and the sockets of its clients. What a socket's `AsyncFd` holds
-- is not modelled: there is one listening socket, and each client's task has its own.
use pve_lxc_syscalld.Base.{ℕ, ℤ, as_u64, Bytes, take}
use pve_lxc_syscalld.Kernel.{
  Action, ◌>>=◌, ◌>>◌, pure, c_try, c_result, nix_try, socket, bind, listen, accept4,
  register_socket, recvmsg, sendmsg,
}
use pve_lxc_syscalld.Kernel
use pve_lxc_syscalld.Io.{wrap_read, wrap_write}

unfoldable pub seq_packet_socket : Action ℤ
seq_packet_socket = do r ← nix_try socket; pure r.res

-- `SeqPacketListener::bind`
unfoldable pub bind_listener : Bytes → Action (Unit {0})
unfolding seq_packet_socket c_result
bind_listener address = do
  seq_packet_socket
  nix_try (bind address)
  nix_try (listen 16)
  c_try register_socket
  pure tt

-- `SeqPacketSocket::new`
unfoldable pub new : ℤ → Action ℤ
unfolding c_result
new fd = do c_try register_socket; pure fd

-- `SeqPacketListener::accept`: the new socket's descriptor.
unfoldable pub accept : Action ℤ
unfolding wrap_read new
accept = do r ← wrap_read accept4; new r.res

-- How many bytes were sent.
unfoldable pub sendmsg_vectored : Bytes → Action ℕ
unfolding wrap_write
sendmsg_vectored content = do r ← wrap_write (sendmsg content); pure (as_u64 r.res)

-- The data and the control messages that were received, as much of them as the buffers hold.
unfoldable pub recvmsg_vectored : ℕ → ℕ → Action (Bytes × Bytes)
unfolding wrap_read
recvmsg_vectored room cmsg_room = do
  r ← wrap_read recvmsg
  pure (take room r.out, take cmsg_room r.control)

unfoldable pub shutdown : Action (Unit {0})
shutdown = nix_try Kernel.shutdown >> pure tt
