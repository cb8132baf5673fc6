-- ===== src/Client/Shape.antt =====
-- What stays the same of a client's buffer: the sizes that are expected, and the room for the cookie.
use pve_lxc_syscalld.Base.{
  ℕ, ◌+◌, ◌≡◌, refl, ◌∙◌, arith, ℤ, Bytes, length, take, drop, Option, some, overwrite,
  length-append, length-take, length-drop,
}
use pve_lxc_syscalld.Process.PidFd.{PidFd}
use pve_lxc_syscalld.Seccomp.{SeccompNotifSizes}
use pve_lxc_syscalld.Syscall.{SyscallStatus, done, failed}
use pve_lxc_syscalld.LxcSeccomp.{
  ProxyMessageBuffer, size_of_proxy_msg, scatter, reset, prepare_response,
}
use pve_lxc_syscalld.LxcSeccomp
use pve_lxc_syscalld.LxcSeccomp.Length.{accepted, set_len_ok}
use pve_lxc_syscalld.Client.{set_response}
use pve_lxc_syscalld.Client.Answers.{TakenAs}

-- A buffer that was made by `new` on so much memory for the cookie, with these sizes.
pub record IsShaped (sizes : SeccompNotifSizes) (room : ℕ) (b : ProxyMessageBuffer) : Type 0 where
  pub same_sizes : b.sizes ≡ sizes
  pub same_packet : b.seccomp_packet_size ≡ size_of_proxy_msg + sizes.notif + sizes.notif_resp
  pub same_room : length b.cookie_mem ≡ room

length-overwrite : (new old : Bytes) → length (overwrite new old) ≡ length old
length-overwrite new old = omega (
  arith,
  length-append (take (length old) new) (drop (length new) old),
  length-take (length old) new,
  length-drop (length new) old,
)

module _ (sizes : SeccompNotifSizes) (room : ℕ) where
  pub scatter-IsShaped :
      (b : ProxyMessageBuffer) (received : Bytes)
      → IsShaped sizes room b
      → IsShaped sizes room (scatter (reset b) received)
  unfolding scatter reset
  scatter-IsShaped b received s = record {
    same_sizes = s.same_sizes;
    same_packet = s.same_packet;
    same_room = length-overwrite (drop 24 (drop 80 (drop 32 received))) b.cookie_mem ∙ s.same_room;
  }

  pub accepted-IsShaped :
      (b : ProxyMessageBuffer) (p : Option PidFd) (m : Option ℤ)
      → IsShaped sizes room b
      → IsShaped sizes room (record (accepted b) { pid_fd = p; mem_fd = m })
  unfolding prepare_response
  accepted-IsShaped b p m s = record {
    same_sizes = s.same_sizes;
    same_packet = s.same_packet;
    same_room = s.same_room;
  }

  pub taken-IsShaped :
      (b taken : ProxyMessageBuffer) (received : Bytes)
      → IsShaped sizes room b
      → TakenAs b received taken
      → IsShaped sizes room taken
  taken-IsShaped b taken received s (b1, p, fd, e, q) =
      let same_buffer = set_len_ok (scatter (reset b) received) b1 (length received) e in
      rw (q, same_buffer)
        (accepted-IsShaped (scatter (reset b) received) (some p) (some fd)
          (scatter-IsShaped b received s))

pub set_response-IsShaped :
    (sizes : SeccompNotifSizes) (room : ℕ) (msg : ProxyMessageBuffer) (s : SyscallStatus)
    → IsShaped sizes room msg
    → IsShaped sizes room (set_response msg s)
unfolding set_response
set_response-IsShaped sizes room msg (done v) w = record {
  same_sizes = w.same_sizes;
  same_packet = w.same_packet;
  same_room = w.same_room;
}
set_response-IsShaped sizes room msg (failed e) w = record {
  same_sizes = w.same_sizes;
  same_packet = w.same_packet;
  same_room = w.same_room;
}

pub new-IsShaped :
    (sizes : SeccompNotifSizes) (mem : Bytes)
    → IsShaped sizes (length mem) (LxcSeccomp.new sizes mem)
unfolding LxcSeccomp.new
new-IsShaped sizes mem = record { same_sizes = refl; same_packet = refl; same_room = refl }
