-- ===== src/Tests/Conversation.antt =====
-- One message of a client, up to its end.
use pve_lxc_syscalld.Base.{
  minus_one, os, Result, ok, err, pos, ◌≡◌, refl, arith, some, replicate, true, Bytes, [], ◌∷◌, ◌+◌,
  ◌<◌, ◌≤◌, All, IsByte,
}
use pve_lxc_syscalld.Kernel.{close, Call, Reply, readable, Kernel, History, recvmsg, shutdown}
use pve_lxc_syscalld.Syscall.{done}
use pve_lxc_syscalld.LxcSeccomp.{ProxyMessageBuffer, new, recv, reset, scatter}
use pve_lxc_syscalld.LxcSeccomp.Length.{accepted}
use pve_lxc_syscalld.Client.{main, handle_syscall_do, set_response}
use pve_lxc_syscalld.Client.Conversation.{
  Exchange, answered, quiet, exchange, main_answers, main_drops,
}
use pve_lxc_syscalld.Tests.Replies.{
  plain, linux_numbers, kernel_sizes, fresh, packet, container, caller,
}

abbrev taken : ProxyMessageBuffer
taken = record (accepted (scatter (reset fresh) packet)) {
  pid_fd = some caller;
  mem_fd = some (pos 11);
}

abbrev handed : History
handed = (recv fresh container []).1

packet_bytes : All IsByte packet
packet_bytes = ground arith

recv_taken : recv fresh container [] ≡ (ok (true, taken), handed)
unfolding recv new reset scatter pve_lxc_syscalld.LxcSeccomp.prepare_response
    pve_lxc_syscalld.LxcSeccomp.decode_proxy_msg pve_lxc_syscalld.Seccomp.decode_notif
    pve_lxc_syscalld.Seccomp.encode_notif pve_lxc_syscalld.Seccomp.decode_resp
    pve_lxc_syscalld.Seccomp.encode_resp pve_lxc_syscalld.Base.words pve_lxc_syscalld.Base.le_value
    pve_lxc_syscalld.LxcSeccomp.encode_proxy_msg pve_lxc_syscalld.Base.unwords
    pve_lxc_syscalld.Base.le_bytes pve_lxc_syscalld.LxcSeccomp.two_fds pve_lxc_syscalld.Io.Cmsg.next
    pve_lxc_syscalld.Process.Status.pid_lines pve_lxc_syscalld.Process.Text.split_lines
    pve_lxc_syscalld.Process.Text.text_line pve_lxc_syscalld.Process.Text.split_ascii_whitespace
    pve_lxc_syscalld.Process.Text.parse_i32
recv_taken = refl

handled_done :
    handle_syscall_do linux_numbers taken container handed
    ≡ (ok (done (pos 0)), (handle_syscall_do linux_numbers taken container handed).1)
unfolding handle_syscall_do reset pve_lxc_syscalld.LxcSeccomp.prepare_response scatter
    pve_lxc_syscalld.Seccomp.decode_notif pve_lxc_syscalld.Base.words pve_lxc_syscalld.Base.le_value
    pve_lxc_syscalld.Seccomp.encode_notif pve_lxc_syscalld.Base.unwords
    pve_lxc_syscalld.Base.le_bytes new pve_lxc_syscalld.Process.PidFd.fd_num
    pve_lxc_syscalld.Syscall.get_c_string pve_lxc_syscalld.Process.PidFd.get_status
    pve_lxc_syscalld.Process.Status.status_lines pve_lxc_syscalld.Process.Text.split_lines
    pve_lxc_syscalld.Process.Text.text_line pve_lxc_syscalld.Process.Status.status_line
    pve_lxc_syscalld.Process.Text.split_ascii_whitespace
    pve_lxc_syscalld.Process.Text.from_str_radix pve_lxc_syscalld.Process.PidFd.get_cgroups
    pve_lxc_syscalld.Process.CGroups.read_lines pve_lxc_syscalld.Process.CGroups.read_line
    pve_lxc_syscalld.AppArmor.get_label pve_lxc_syscalld.Process.CGroups.empty
    pve_lxc_syscalld.NsFd.openat pve_lxc_syscalld.AppArmor.set_label
    pve_lxc_syscalld.Capability.SecureBits.get_current pve_lxc_syscalld.Capability.SecureBits.apply
    pve_lxc_syscalld.Capability.capset
handled_done = refl

abbrev one_exchange : Exchange linux_numbers container fresh [] packet (done (pos 0))
unfolding new pve_lxc_syscalld.Client.status_or_error
one_exchange = record {
  waits = 0;
  in_time = omega arith;
  blocks = (refl, refl);
  taken = taken;
  handed = handed;
  accepts = recv_taken;
  is_received = refl;
  bytes = packet_bytes;
  whole = omega arith;
  outcome = ok (done (pos 0));
  handled = (handle_syscall_do linux_numbers taken container handed).1;
  handles = handled_done;
  has_number = refl;
  send_waits = 0;
  send_in_time = omega arith;
  send_blocks = (refl, refl);
  sends = refl;
}

abbrev after : History
after = answered linux_numbers container fresh [] packet (done (pos 0)) one_exchange

main_answers_example :
    main linux_numbers kernel_sizes (replicate 64 0) container []
    ≡ (ok tt, recvmsg ∷ readable ∷ close (pos 10) ∷ close (pos 11) ∷ after)
unfolding one_exchange set_response
main_answers_example =
    main_answers linux_numbers container kernel_sizes (replicate 64 0)
      (set_response taken (done (pos 0))) after ((packet, done (pos 0)) ∷ []) 0 0 refl
      (exchange one_exchange quiet) (omega arith) (refl, refl) refl refl

-- The connection is reset before any message.
abbrev reset_reply : Call → Reply
reset_reply recvmsg = record {
  res = minus_one;
  errno = pos 104;
  out = [];
  control = [];
  status = pos 0;
}
reset_reply c = plain 0 []

abbrev resetting : Kernel
resetting = record { reply = λ h c. reset_reply c; rounds = 1; flags_from_bits = λ n. some n }

recv_reset : recv fresh resetting [] ≡ (err (os (pos 104)), recvmsg ∷ readable ∷ [])
unfolding recv new
recv_reset = refl

main_drops_example :
    main linux_numbers kernel_sizes (replicate 64 0) resetting []
    ≡ (ok tt, shutdown ∷ recvmsg ∷ readable ∷ [])
main_drops_example =
    main_drops linux_numbers resetting kernel_sizes (replicate 64 0) fresh []
      (recvmsg ∷ readable ∷ []) [] 0 (os (pos 104)) refl quiet recv_reset
