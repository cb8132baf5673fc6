-- ===== src/LxcSeccomp/Received.antt =====
-- What the code relies on once `recv` has returned a message.
use pve_lxc_syscalld.Base.{
  ◌∷◌, if◌then◌else◌, leb, drop, length-drop, [], ℕ, unwrap, ◌∙◌, ap, ◌^◌, ℤ, ◌+◌, ◌<◌, ◌≡◌, ◌↔◌,
  ◌⊎◌, Bytes, length, take, le_value, true, Bool, ok, panic, Result, some, arith, ◌≤◌,
}
use pve_lxc_syscalld.Io.Cmsg.{ControlMessage, align, next, slice}
use pve_lxc_syscalld.Kernel.{owning, lift, Kernel, History}
use pve_lxc_syscalld.Kernel.Laws.{bind_ok}
use pve_lxc_syscalld.Process.PidFd.{PidFd, try_from_fd}
use pve_lxc_syscalld.LxcSeccomp.{
  fds_wrapped, ProxyMessageBuffer, set_len, two_fds, accept_message, prepare_response, pid_fd_of,
  mem_fd_of,
}
use pve_lxc_syscalld.LxcSeccomp.Length.{accepted, IsAccepted, set_len_iff, set_len_ok}

-- Looking for the next control message panics exactly when a header is there whose length is less than
-- its own size or more than the buffer's.
pub next_panics_iff :
    (buf : Bytes)
    → (next buf ≡ panic)
      ↔ ((16 ≤ length buf) × ((le_value (take 8 buf) < 16) ⊎ (length buf < le_value (take 8 buf))))
unfolding next slice
next_panics_iff buf = ground arith

behind_lt :
    (buf : Bytes) (n : ℕ)
    → 0 < n
    → 0 < length buf
    → length (if leb (length buf) n then [] else drop n buf) < length buf
behind_lt buf n p q = ground (arith, length-drop n buf)

-- What is left behind a control message is shorter than the buffer that held it, so that looking for the
-- next one comes to an end. The buffer's length has to be that of a 64-bit word.
pub length-next_lt :
    (buf rest : Bytes) (m : ControlMessage)
    → length buf < 2 ^ 63
    → next buf ≡ ok (some (m, rest))
    → length rest < length buf
unfolding next slice align
length-next_lt buf rest m l e = ground (arith, behind_lt buf (align (le_value (take 8 buf))))

-- If `recv` returns from a message, it reports that there is one, the cookie lies within its memory, the
-- length of the packet is that of the fixed part and the cookie, and neither `pid_fd()` nor `mem_fd()`
-- panics. The lengths have to be those of 64-bit words.
pub accept_message_ok :
    (b b' : ProxyMessageBuffer) (received control : Bytes) (more : Bool) (k : Kernel)
    (h h' : History)
    → length received < 2 ^ 63
    → b.proxy_msg.cookie_len < 2 ^ 64
    → accept_message b received control k h ≡ (ok (more, b'), h')
    → (more ≡ true)
      × (b'.cookie_used ≤ length b'.cookie_mem)
      × (length received ≡ b.seccomp_packet_size + b'.cookie_used)
      × ((p : PidFd) × (pid_fd_of b' ≡ ok p))
      × ((fd : ℤ) × (mem_fd_of b' ≡ ok fd))
unfolding accept_message pid_fd_of mem_fd_of prepare_response
accept_message_ok b b' received control more k h h' hl hc e =
    let (b1, h1, e1, f1) = bind_ok (lift (set_len b (length received))) _ k h e in
    let (fds, h2, e2, f2) =
      bind_ok (owning (fds_wrapped control) (lift (two_fds control))) _ k h1 f1 in
    let (p, h3, e3, f3) = bind_ok (owning (fds.0 ∷ fds.1 ∷ []) (try_from_fd fds.0)) _ k h2 f2 in
    let g : set_len b (length received) ≡ ok b1 = ap (λ x. x.0) e1 in
    let g1 : b1 ≡ accepted b = set_len_ok b b1 (length received) g in
    let fine : IsAccepted b (length received) =
      (set_len_iff b (length received) hl hc).0 (g ∙ ap (λ x. ok x) g1) in
    finished b1 b' p fds.1 more h3 h' f3 g1 fine
  where
    finished :
        (b1 b' : ProxyMessageBuffer) (p : PidFd) (fd : ℤ) (more : Bool) (h3 h' : History)
        → ◌≡◌ {A = Result (Bool × ProxyMessageBuffer) × History}
            (ok (true, record b1 { pid_fd = some p; mem_fd = some fd }), h3)
            (ok (more, b'), h')
        → b1 ≡ accepted b
        → IsAccepted b (length received)
        → (more ≡ true)
          × (b'.cookie_used ≤ length b'.cookie_mem)
          × (length received ≡ b.seccomp_packet_size + b'.cookie_used)
          × ((p : PidFd) × (unwrap b'.pid_fd ≡ ok p))
          × ((fd : ℤ) × (unwrap b'.mem_fd ≡ ok fd))
    finished b1 b' p fd more h3 h' e g w =
        (ground arith, ground arith, ground arith, (p, ground arith), (fd, ground arith))
