-- ===== src/LxcSeccomp.antt =====
-- src/lxcseccomp.rs: the messages between the lxc monitor and the daemon. A descriptor is its number;
-- What `SECCOMP_SIZES` holds and the uninitialised cookie memory are arguments of `new`.
pub mod Args
pub mod Length
pub mod Received
pub mod Rights
pub mod Echo
mod Descriptors
unfoldable pub use Descriptors.{
  wrapped, message_wrapped, found_wrapped, fds_wrapped, from_raw_fd, fds_of, exactly_two,
  message_fds, two_fds,
}
use pve_lxc_syscalld.Base.{
  overwrite, ℕ, ◌+◌, ◌-◌, ◌%◌, ◌^◌, ℤ, pos, minus_one, eq_ℤ, signed32, as_u32, as_u64, neg_i32,
  Bytes, List, [], ◌∷◌, ◌++◌, length, take, drop, replicate, le_value, words, unwords, total, Bool,
  true, false, ◌&&◌, not, ltb, ◌==◌, if◌then◌else◌, Option, some, none, Result, ok, err, message,
  io_kind, kind_other, unwrap, or_err, expect_ok,
}
use pve_lxc_syscalld.Libc.{enosys, sol_socket, scm_rights}
use pve_lxc_syscalld.Kernel.{
  attempt, close_all, owning, Action, ◌>>=◌, ◌>>◌, lift, pure, throw, io_bail, c_try, c_result,
  recvmsg, sendmsg,
}
use pve_lxc_syscalld.Seccomp.{
  SeccompNotif, SeccompNotifResp, SeccompNotifSizes, decode_notif, encode_notif, decode_resp,
  encode_resp, size_of_notif, size_of_resp, field_at, get_checked,
}
use pve_lxc_syscalld.Io.Cmsg.{capacity}
use pve_lxc_syscalld.Io.SeqPacket.{recvmsg_vectored, sendmsg_vectored}
use pve_lxc_syscalld.Process.PidFd.{PidFd, try_from_fd}

pub record SeccompNotifyProxyMsg : Type 0 where
  pub reserved0 : ℕ
  pub monitor_pid : ℤ
  pub init_pid : ℤ
  pub sizes : SeccompNotifSizes
  -- the two bytes by which the C layout aligns the last field
  pub padding : ℕ
  pub cookie_len : ℕ

abbrev pub proxy_layout : List ℕ
proxy_layout = 8 ∷ 4 ∷ 4 ∷ 2 ∷ 2 ∷ 2 ∷ 2 ∷ 8 ∷ []

abbrev pub size_of_proxy_msg : ℕ
size_of_proxy_msg = total proxy_layout

abbrev pub proxy_msg_of_words : List ℕ → SeccompNotifyProxyMsg
proxy_msg_of_words vs = record {
  reserved0 = field_at vs 0;
  monitor_pid = signed32 (field_at vs 1);
  init_pid = signed32 (field_at vs 2);
  sizes = record { notif = field_at vs 3; notif_resp = field_at vs 4; call = field_at vs 5 };
  padding = field_at vs 6;
  cookie_len = field_at vs 7;
}

unfoldable pub decode_proxy_msg : Bytes → SeccompNotifyProxyMsg
decode_proxy_msg bs = proxy_msg_of_words (words proxy_layout bs)

unfoldable pub encode_proxy_msg : SeccompNotifyProxyMsg → Bytes
encode_proxy_msg m = unwords proxy_layout (
    m.reserved0
    ∷ as_u32 m.monitor_pid
    ∷ as_u32 m.init_pid
    ∷ m.sizes.notif
    ∷ m.sizes.notif_resp
    ∷ m.sizes.call
    ∷ m.padding
    ∷ m.cookie_len
    ∷ [])

-- The cookie vector is its memory, as long as its capacity, and its length.
pub record ProxyMessageBuffer : Type 0 where
  pub proxy_msg : SeccompNotifyProxyMsg
  pub seccomp_notif : SeccompNotif
  pub seccomp_resp : SeccompNotifResp
  pub cookie_mem : Bytes
  pub cookie_used : ℕ
  pub sizes : SeccompNotifSizes
  pub seccomp_packet_size : ℕ
  pub pid_fd : Option PidFd
  pub mem_fd : Option ℤ

-- `SECCOMP_SIZES`, as it is found once for the process: an error is a panic.
unfoldable pub seccomp_sizes : Action SeccompNotifSizes
unfolding get_checked
seccomp_sizes = do outcome ← attempt get_checked; lift (expect_ok outcome)

unfoldable pub new : SeccompNotifSizes → Bytes → ProxyMessageBuffer
unfolding decode_proxy_msg decode_notif decode_resp
new sizes cookie_mem = record {
  proxy_msg = decode_proxy_msg (replicate size_of_proxy_msg 0);
  seccomp_notif = decode_notif (replicate size_of_notif 0);
  seccomp_resp = decode_resp (replicate size_of_resp 0);
  cookie_mem = cookie_mem;
  cookie_used = length cookie_mem;
  sizes = sizes;
  seccomp_packet_size = size_of_proxy_msg + sizes.notif + sizes.notif_resp;
  pid_fd = none;
  mem_fd = none;
}

unfoldable pub reset : ProxyMessageBuffer → ProxyMessageBuffer
reset b = record b {
  proxy_msg = record (b.proxy_msg) { cookie_len = 0 };
  mem_fd = none;
  pid_fd = none;
}

abbrev pub pid_held : Option PidFd → List ℤ
pid_held none = []
pid_held (some p) = p.fd ∷ []

abbrev pub mem_held : Option ℤ → List ℤ
mem_held none = []
mem_held (some fd) = fd ∷ []

-- The descriptors of the last message are dropped by the reset, `mem_fd` first.
abbrev pub reset_drops : ProxyMessageBuffer → List ℤ
reset_drops b = mem_held b.mem_fd ++ pid_held b.pid_fd

-- And with the buffer itself, in the order of its fields.
abbrev pub held : ProxyMessageBuffer → List ℤ
held b = pid_held b.pid_fd ++ mem_held b.mem_fd

unfoldable pub check_sizes : ProxyMessageBuffer → Bool
check_sizes b =
    let got = b.proxy_msg.sizes in
    got.notif == b.sizes.notif && got.notif_resp == b.sizes.notif_resp && got.call == b.sizes.call

-- What the message says of its origin, not checked, and its structures.
abbrev pub monitor_pid : ProxyMessageBuffer → ℤ
monitor_pid b = b.proxy_msg.monitor_pid

abbrev pub init_pid : ProxyMessageBuffer → ℤ
init_pid b = b.proxy_msg.init_pid

abbrev pub request : ProxyMessageBuffer → SeccompNotif
request b = b.seccomp_notif

-- `response_mut()`, as what it refers to is changed
abbrev pub response_mut :
    ProxyMessageBuffer → (SeccompNotifResp → SeccompNotifResp) → ProxyMessageBuffer
response_mut b change = record b { seccomp_resp = change b.seccomp_resp }

unfoldable pub prepare_response : ProxyMessageBuffer → ProxyMessageBuffer
prepare_response b =
    response_mut b
      λ resp. record { id = (request b).id; val = minus_one; error = neg_i32 enosys; flags = 0 }

-- usize is a u64, so that `usize::try_from(cookie_len)` cannot fail. The last sum wraps in a release
-- build.
unfoldable pub set_len : ProxyMessageBuffer → ℕ → Result ProxyMessageBuffer
unfolding check_sizes prepare_response
set_len b len =
    if ltb len b.seccomp_packet_size
    then err message
    else if not (b.proxy_msg.reserved0 == 0)
    then err message
    else if not (check_sizes b)
    then err message
    else if ltb (length b.cookie_mem) (len - b.seccomp_packet_size)
    then err message
    else if not (len == (b.seccomp_packet_size + b.proxy_msg.cookie_len) % 2 ^ 64)
    then err message
    else ok (prepare_response (record b { cookie_used = b.proxy_msg.cookie_len }))

-- The datagram fills the four buffers one after the other.
unfoldable pub scatter : ProxyMessageBuffer → Bytes → ProxyMessageBuffer
scatter b received =
    let rest = drop size_of_proxy_msg received in
    let rest2 = drop size_of_notif rest in
    let rest3 = drop size_of_resp rest2 in
    record b {
      proxy_msg = decode_proxy_msg (overwrite received (encode_proxy_msg b.proxy_msg));
      seccomp_notif = decode_notif (overwrite rest (encode_notif b.seccomp_notif));
      seccomp_resp = decode_resp (overwrite rest2 (encode_resp b.seccomp_resp));
      cookie_mem = overwrite rest3 b.cookie_mem;
      cookie_used = 0;
    }

unfoldable pub accept_message :
    ProxyMessageBuffer → Bytes → Bytes → Action (Bool × ProxyMessageBuffer)
unfolding set_len try_from_fd
accept_message b received control = do
  b' ← lift (set_len b (length received))
  fds ← owning (fds_wrapped control) (lift (two_fds control))
  pid_fd ← owning (fds.0 ∷ fds.1 ∷ []) (try_from_fd fds.0)
  pure (true, record b' { pid_fd = some pid_fd; mem_fd = some (fds.1) })

-- The room in the four buffers.
abbrev pub iovec_size : ProxyMessageBuffer → ℕ
iovec_size b = size_of_proxy_msg + size_of_notif + size_of_resp + length b.cookie_mem

-- After an error the caller drops the buffer, so only a success returns it.
unfoldable pub recv : ProxyMessageBuffer → Action (Bool × ProxyMessageBuffer)
unfolding reset scatter recvmsg_vectored capacity accept_message
recv b = do
  close_all (reset_drops b)
  (received, control) ← recvmsg_vectored (iovec_size b) (capacity 8)
  let b' = scatter (reset b) received
  if length received == 0 then pure (false, b') else accept_message b' received control

unfoldable pub respond : ProxyMessageBuffer → Action (Unit {0})
unfolding encode_proxy_msg encode_notif encode_resp sendmsg_vectored
respond b = do
  let packet =
      encode_proxy_msg b.proxy_msg ++ encode_notif b.seccomp_notif ++ encode_resp b.seccomp_resp
  sent ← sendmsg_vectored packet
  if sent == length packet then pure tt else io_bail

-- `cookie_len()`: a usize is a u64, so that the conversion cannot fail.
abbrev pub cookie_len_of : ProxyMessageBuffer → ℕ
cookie_len_of b = b.proxy_msg.cookie_len

-- `cookie()`
unfoldable pub cookie : ProxyMessageBuffer → Bytes
cookie b = take b.cookie_used b.cookie_mem

-- `pid_fd()` and `mem_fd()`: they panic on a buffer without a valid message.
unfoldable pub pid_fd_of : ProxyMessageBuffer → Result PidFd
pid_fd_of b = unwrap b.pid_fd

unfoldable pub mem_fd_of : ProxyMessageBuffer → Result ℤ
mem_fd_of b = unwrap b.mem_fd
