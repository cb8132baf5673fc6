-- ===== src/Seccomp/Codec.antt =====
-- The memory of the structures of src/seccomp.rs.
use Prim.Native.Nat.{zero, suc}
use native.Mathlib.Nat.{pow-suc}
use pve_lxc_syscalld.Base.{
  ℕ, ◌^◌, ◌<◌, ◌≡◌, Bytes, length, All, IsByte, [], ◌∷◌, take, drop, le_value, words, unwords-words,
  as_u32-signed32, as_u64-signed64, All-drop, arith,
}
use pve_lxc_syscalld.Seccomp.{
  decode_notif, encode_notif, decode_resp, encode_resp, notif_layout, resp_layout, size_of_notif,
  size_of_resp,
}

-- A word fits its width.
pub word-lt : (w : ℕ) (bs : Bytes) → All IsByte bs → le_value (take w bs) < 256 ^ w
unfolding le_value
word-lt zero bs b = omega arith
word-lt (suc w) [] b = omega (arith, word-lt w [] tt, pow-suc 256 w)
word-lt (suc w) (x ∷ xs) b = omega (arith, word-lt w xs b.1, pow-suc 256 w, b.0)

-- The bytes of a notification, read as a structure and written back, are the same bytes.
pub encode_notif-decode_notif :
    (bs : Bytes) → length bs ≡ size_of_notif → All IsByte bs → encode_notif (decode_notif bs) ≡ bs
unfolding encode_notif decode_notif words
encode_notif-decode_notif bs h b =
    let nr = drop 4 (drop 4 (drop 8 bs)) in
    let b1 = All-drop IsByte 8 bs b in
    let b2 = All-drop IsByte 4 (drop 8 bs) b1 in
    let b3 = All-drop IsByte 4 (drop 4 (drop 8 bs)) b2 in
    rw (as_u32-signed32 (le_value (take 4 nr)) (word-lt 4 nr b3))
      (unwords-words notif_layout bs h b)

-- So are those of a response.
pub encode_resp-decode_resp :
    (bs : Bytes) → length bs ≡ size_of_resp → All IsByte bs → encode_resp (decode_resp bs) ≡ bs
unfolding encode_resp decode_resp words
encode_resp-decode_resp bs h b =
    let val = drop 8 bs in
    let b1 = All-drop IsByte 8 bs b in
    let b2 = All-drop IsByte 8 val b1 in
    rw
      (
        as_u64-signed64 (le_value (take 8 val)) (word-lt 8 val b1),
        as_u32-signed32 (le_value (take 4 (drop 8 val))) (word-lt 4 (drop 8 val) b2),
      )
      (unwords-words resp_layout bs h b)
