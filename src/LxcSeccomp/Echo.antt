-- ===== src/LxcSeccomp/Echo.antt =====
-- What is received and what is answered, byte for byte.
use pve_lxc_syscalld.Base.{
  overwrite, ℕ, zero, suc, ◌+◌, ◌≤◌, ◌≡◌, refl, ap, ◌∙◌, Bytes, length, All, IsByte, List, [], ◌∷◌,
  ◌++◌, take, drop, le_value, le_bytes, words, unwords, total, unwords-words, as_u32-signed32,
  All-take, All-drop, length-take, length-drop, length-append, length-le_bytes, arith, minus_one,
  pos, neg_i32, ok, append-nil, ap₂,
}
use pve_lxc_syscalld.Seccomp.{SeccompNotifResp, encode_notif, encode_resp, notif_layout}
use pve_lxc_syscalld.Seccomp.Codec.{word-lt, encode_notif-decode_notif}
use pve_lxc_syscalld.Syscall.{SyscallStatus, done, failed}
use pve_lxc_syscalld.Client.{set_response}
use pve_lxc_syscalld.LxcSeccomp.Length.{accepted, set_len_ok}
use pve_lxc_syscalld.LxcSeccomp.{
  ProxyMessageBuffer, encode_proxy_msg, decode_proxy_msg, proxy_layout, size_of_proxy_msg, scatter,
  set_len, prepare_response,
}

-- The bytes of the header, read and written back, are the same bytes.
pub encode_proxy_msg-decode_proxy_msg :
    (bs : Bytes)
    → length bs ≡ size_of_proxy_msg
    → All IsByte bs
    → encode_proxy_msg (decode_proxy_msg bs) ≡ bs
unfolding encode_proxy_msg decode_proxy_msg words
encode_proxy_msg-decode_proxy_msg bs h b =
    let b1 = All-drop IsByte 8 bs b in
    let b2 = All-drop IsByte 4 (drop 8 bs) b1 in
    rw
      (
        as_u32-signed32 (le_value (take 4 (drop 8 bs))) (word-lt 4 (drop 8 bs) b1),
        as_u32-signed32 (le_value (take 4 (drop 4 (drop 8 bs))))
            (word-lt 4 (drop 4 (drop 8 bs)) b2),
      )
      (unwords-words proxy_layout bs h b)

pub length-fields : (ws vs : List ℕ) → length vs ≡ length ws → length (unwords ws vs) ≡ total ws
unfolding unwords
length-fields [] vs h = refl
length-fields (w ∷ ws) [] h = absurd (omega arith)
length-fields (w ∷ ws) (v ∷ vs) h = omega (
  arith,
  length-append (le_bytes w v) (unwords ws vs),
  length-le_bytes w v,
  length-fields ws vs (omega arith),
)

drop_all : (n : ℕ) (bs : Bytes) → length bs ≤ n → drop n bs ≡ []
drop_all zero [] h = refl
drop_all zero (x ∷ bs) h = absurd (omega arith)
drop_all (suc n) [] h = refl
drop_all (suc n) (x ∷ bs) h = drop_all n bs (omega arith)

-- A buffer of `n` bytes is overwritten by a message that is long enough.
pub overwrite_all :
    (n : ℕ) (new old : Bytes) → length old ≡ n → n ≤ length new → overwrite new old ≡ take n new
overwrite_all n new old e h =
    rw (e, drop_all (length new) old (omega arith)) (append-nil (take n new))

module _ (b : ProxyMessageBuffer) (received : Bytes) where
  proxy_received :
      112 ≤ length received
      → All IsByte received
      → encode_proxy_msg (scatter b received).proxy_msg ≡ take 32 received
  unfolding scatter encode_proxy_msg
  proxy_received h w =
      rw
        (overwrite_all 32 received (encode_proxy_msg b.proxy_msg)
          (length-fields proxy_layout _ refl) (omega arith))
        (encode_proxy_msg-decode_proxy_msg (take 32 received)
          (omega (arith, length-take 32 received)) (All-take IsByte 32 received w))

  notif_received :
      112 ≤ length received
      → All IsByte received
      → length b.seccomp_notif.call.args ≡ 6
      → encode_notif (scatter b received).seccomp_notif ≡ take 80 (drop 32 received)
  unfolding scatter encode_notif
  notif_received h w a =
      let rest = drop 32 received in
      let room : 80 ≤ length rest = omega (arith, length-drop 32 received) in
      rw
        (overwrite_all 80 rest (encode_notif b.seccomp_notif)
          (length-fields notif_layout _ (omega arith)) room)
        (encode_notif-decode_notif (take 80 rest) (omega (arith, length-take 80 rest))
          (All-take IsByte 80 rest (All-drop IsByte 32 received w)))

take-append-take :
    (m n k : ℕ) (bs : Bytes) → k ≡ m + n → take m bs ++ take n (drop m bs) ≡ take k bs
take-append-take zero n k bs e = rw e (ap (λ j. take j bs) (omega arith))
take-append-take (suc m) n zero bs e = absurd (omega arith)
take-append-take (suc m) zero (suc k) [] e = refl
take-append-take (suc m) (suc n) (suc k) [] e = refl
take-append-take (suc m) n (suc k) (x ∷ bs) e =
    ap (λ t. x ∷ t) (take-append-take m n k bs (omega arith))

-- The response that belongs to a status.
abbrev pub response : ℕ → SyscallStatus → SeccompNotifResp
response id (done v) = record { id = id; val = v; error = pos 0; flags = 0 }
response id (failed e) = record { id = id; val = minus_one; error = neg_i32 e; flags = 0 }

answer_of_accepted :
    (b : ProxyMessageBuffer) (status : SyscallStatus)
    → encode_proxy_msg (set_response (accepted b) status).proxy_msg
        ++ encode_notif (set_response (accepted b) status).seccomp_notif
        ++ encode_resp (set_response (accepted b) status).seccomp_resp
      ≡ encode_proxy_msg b.proxy_msg
        ++ encode_notif b.seccomp_notif
        ++ encode_resp (response b.seccomp_notif.id status)
unfolding set_response prepare_response
answer_of_accepted b (done v) = refl
answer_of_accepted b (failed e) = refl

-- Once `set_len` has accepted a received packet, the message that answers it with a status is the first
-- 112 bytes of the packet, as they came, followed by a response with the id of the notification, and with
-- the value and no error, or with -1 and the negated errno. The packet has at least those bytes, and
-- the buffer before it held six arguments, as any notification does.
pub answer_echoes :
    (b b' : ProxyMessageBuffer) (received : Bytes) (status : SyscallStatus)
    → 112 ≤ length received
    → All IsByte received
    → length b.seccomp_notif.call.args ≡ 6
    → set_len (scatter b received) (length received) ≡ ok b'
    → encode_proxy_msg (set_response b' status).proxy_msg
        ++ encode_notif (set_response b' status).seccomp_notif
        ++ encode_resp (set_response b' status).seccomp_resp
      ≡ take 112 received ++ encode_resp (response (scatter b received).seccomp_notif.id status)
answer_echoes b b' received status h w a e =
    let last = encode_resp (response (scatter b received).seccomp_notif.id status) in
    rw (set_len_ok (scatter b received) b' (length received) e) (
      answer_of_accepted (scatter b received) status
      ∙ (ap₂ (λ s t. s ++ t ++ last) (proxy_received b received h w)
            (notif_received b received h w a)
          ∙ ap (λ t. t ++ last) (take-append-take 32 80 112 received refl)))
