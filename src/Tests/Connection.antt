-- ===== src/Tests/Connection.antt =====
-- Messages, at the connection of a monitor.
use pve_lxc_syscalld.Base.{
  inl, le_bytes, unwords, words, some, ◌+◌, ◌≡◌, ◌↔◌, ◌≤◌, refl, ok, true, Bytes, [], ◌∷◌, ◌++◌,
  take, drop, length, replicate, ℤ, pos, le_value, arith, All, IsByte,
}
use pve_lxc_syscalld.Io.Cmsg.{next}
use pve_lxc_syscalld.Process.PidFd.{try_from_fd, PidFd}
use pve_lxc_syscalld.Seccomp.{decode_resp, encode_notif, decode_notif, encode_resp}
use pve_lxc_syscalld.Syscall.{done, translate_syscall, mknodat}
use pve_lxc_syscalld.Syscall.Table.{Handled, translate_iff}
use pve_lxc_syscalld.LxcSeccomp.{
  two_fds, prepare_response, check_sizes, decode_proxy_msg, new, ProxyMessageBuffer, set_len,
  scatter, accept_message, pid_fd_of, mem_fd_of, encode_proxy_msg,
}
use pve_lxc_syscalld.LxcSeccomp.Length.{IsAccepted, accepted, set_len_iff}
use pve_lxc_syscalld.LxcSeccomp.Echo.{answer_echoes, response}
use pve_lxc_syscalld.LxcSeccomp.Received.{accept_message_ok}
use pve_lxc_syscalld.Libc.{sol_socket}
use pve_lxc_syscalld.LxcSeccomp.Rights.{two_rights, two_fds-two_rights}
use pve_lxc_syscalld.Client.{main, set_response}
use pve_lxc_syscalld.Guard.{Safe}
use pve_lxc_syscalld.Guard.Connection.{main-Safe}
use pve_lxc_syscalld.Tests.Replies.{
  linux_numbers, kernel_sizes, fresh, packet, rights, willing, caller,
}

main-Safe_example :
    Safe linux_numbers willing (main linux_numbers kernel_sizes (replicate 64 0) willing []).1
main-Safe_example = main-Safe linux_numbers kernel_sizes (replicate 64 0) willing

abbrev held : ProxyMessageBuffer
held = scatter fresh packet

held_cookie : held.proxy_msg.cookie_len ≡ 2
unfolding scatter new decode_proxy_msg encode_proxy_msg decode_notif decode_resp words unwords
    le_value le_bytes
held_cookie = refl

set_len_iff_example : (set_len held 138 ≡ ok (accepted held)) ↔ IsAccepted held 138
set_len_iff_example = set_len_iff held 138 (omega arith) (omega (arith, held_cookie))

packet_bytes : All IsByte packet
packet_bytes = ground arith

held-accepted : set_len held 138 ≡ ok (accepted held)
unfolding set_len scatter new decode_proxy_msg encode_proxy_msg decode_notif encode_notif
    decode_resp encode_resp words unwords le_value le_bytes check_sizes prepare_response
held-accepted = refl

six_arguments : length fresh.seccomp_notif.call.args ≡ 6
unfolding new decode_notif words
six_arguments = refl

answer_echoes_example :
    encode_proxy_msg (set_response (accepted held) (done (pos 0))).proxy_msg
      ++ encode_notif (set_response (accepted held) (done (pos 0))).seccomp_notif
      ++ encode_resp (set_response (accepted held) (done (pos 0))).seccomp_resp
    ≡ take 112 packet ++ encode_resp (response held.seccomp_notif.id (done (pos 0)))
answer_echoes_example =
    answer_echoes fresh (accepted held) packet (done (pos 0)) (omega arith) packet_bytes
      six_arguments held-accepted

abbrev returned : ProxyMessageBuffer
returned = record (accepted held) { pid_fd = some caller; mem_fd = some (pos 11) }

held-returned :
    accept_message held packet rights willing []
    ≡ (ok (true, returned), (accept_message held packet rights willing []).1)
unfolding accept_message set_len scatter new decode_proxy_msg encode_proxy_msg decode_notif
    encode_notif decode_resp encode_resp words unwords le_value le_bytes check_sizes
    prepare_response two_fds try_from_fd next pve_lxc_syscalld.Process.Status.pid_lines
    pve_lxc_syscalld.Process.Text.split_lines pve_lxc_syscalld.Process.Text.text_line
    pve_lxc_syscalld.Process.Text.split_ascii_whitespace pve_lxc_syscalld.Process.Text.parse_i32
held-returned = refl

accept_message_ok_example :
    (true ≡ true)
    × (returned.cookie_used ≤ length returned.cookie_mem)
    × (138 ≡ held.seccomp_packet_size + returned.cookie_used)
    × ((p : PidFd) × (pid_fd_of returned ≡ ok p))
    × ((fd : ℤ) × (mem_fd_of returned ≡ ok fd))
accept_message_ok_example =
    accept_message_ok held returned packet rights true willing []
      (accept_message held packet rights willing []).1 (omega arith) (omega (arith, held_cookie))
      held-returned

-- a header whose length is 8
abbrev short_header : Bytes
short_header = 8 ∷ replicate 15 0

next-rights :
    next rights
    ≡ ok (
        some (
          record { cmsg_level = pos 1; cmsg_type = pos 1; payload = drop 16 rights },
          drop 24 rights,
        ))
unfolding next le_value
next-rights = refl

translate_iff_example :
    (translate_syscall 0xc000003e (pos 259) ≡ some mknodat) ↔ Handled 0xc000003e (pos 259) mknodat
translate_iff_example = translate_iff 0xc000003e (pos 259) mknodat

-- credentials, which are not descriptors
two_fds-two_rights_example :
    two_fds (two_rights sol_socket (pos 2) (pos 10) (pos 11)) ≡ ok (pos 10, pos 11)
two_fds-two_rights_example =
    two_fds-two_rights sol_socket (pos 2) (pos 10) (pos 11) (omega arith) (omega arith)
      (omega arith) (omega arith) (inl refl) (ground arith) (ground arith)
