-- ===== src/LxcSeccomp/Length.antt =====
-- Which packets `set_len` accepts.
use pve_lxc_syscalld.Base.{ℕ, ◌+◌, ◌≤◌, ◌<◌, ◌^◌, ◌≡◌, ◌↔◌, length, ok, arith}
use pve_lxc_syscalld.LxcSeccomp.{ProxyMessageBuffer, set_len, prepare_response}

-- A packet of `len` bytes is well formed for the buffer that holds it.
pub record IsAccepted (b : ProxyMessageBuffer) (len : ℕ) : Type 0 where
  pub reserved : b.proxy_msg.reserved0 ≡ 0
  pub notif_size : b.proxy_msg.sizes.notif ≡ b.sizes.notif
  pub resp_size : b.proxy_msg.sizes.notif_resp ≡ b.sizes.notif_resp
  pub data_size : b.proxy_msg.sizes.call ≡ b.sizes.call
  pub exact : len ≡ b.seccomp_packet_size + b.proxy_msg.cookie_len
  pub room : b.proxy_msg.cookie_len ≤ length b.cookie_mem

-- The buffer with the cookie's length set and a response that says ENOSYS.
abbrev pub accepted : ProxyMessageBuffer → ProxyMessageBuffer
accepted b = prepare_response (record b { cookie_used = b.proxy_msg.cookie_len })

-- `set_len` accepts a packet exactly when its reserved word is 0, its sizes are the expected ones, its
-- length is that of the fixed part and the cookie, and the cookie fits the memory set aside for it. It
-- does so whatever the sender claims as the cookie's length: the sum that it compares does not wrap
-- unnoticed. The lengths have to be those of 64-bit words.
pub set_len_iff :
    (b : ProxyMessageBuffer) (len : ℕ)
    → len < 2 ^ 63
    → b.proxy_msg.cookie_len < 2 ^ 64
    → (set_len b len ≡ ok (accepted b)) ↔ IsAccepted b len
unfolding set_len
set_len_iff b len hl hc = ground arith

-- What it returns is the buffer `accepted`.
pub set_len_ok : (b b' : ProxyMessageBuffer) (len : ℕ) → set_len b len ≡ ok b' → b' ≡ accepted b
unfolding set_len
set_len_ok b b' len e = ground arith

-- An accepted packet has its fixed part.
pub set_len_le :
    (b b' : ProxyMessageBuffer) (len : ℕ) → set_len b len ≡ ok b' → b.seccomp_packet_size ≤ len
unfolding set_len
set_len_le b b' len e = ground arith
