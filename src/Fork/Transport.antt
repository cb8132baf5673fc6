-- ===== src/Fork/Transport.antt =====
-- The outcome of the child, through the pipe, in the parent.
use pve_lxc_syscalld.Base.{
  ℕ, pos, IsI32, IsI64, as_u32, as_u64, List, [], ◌∷◌, signed32-as_u32, signed64-as_u64, as_u32-lt,
  as_u64-lt, length, words-unwords, length-unwords, Fits, ◌≡◌, ◌≢◌, refl, ap, ◌∙◌, nix, os, io_kind,
  message, Result, ok, err, panic, hang, Option, some, none, arith,
}
use pve_lxc_syscalld.Libc.{efault}
use pve_lxc_syscalld.Syscall.{SyscallStatus, done, failed}
use pve_lxc_syscalld.Fork.{
  Packet, encode_packet, decode_packet, packet_of, status_of, packet_of_words, packet_layout,
}

pub record IsPacket (p : Packet) : Type 0 where
  pub val_fits : IsI64 p.val
  pub error_fits : IsI32 p.error
  pub failure_fits : IsI32 p.failure

abbrev packet_words : Packet → List ℕ
packet_words p = as_u64 p.val ∷ as_u32 p.error ∷ as_u32 p.failure ∷ []

packet-Fits : (p : Packet) → Fits packet_layout (packet_words p)
packet-Fits p = (as_u64-lt p.val, (as_u32-lt p.error, (as_u32-lt p.failure, tt)))

-- A packet whose numbers fit their fields is read back from its bytes.
pub decode_packet-encode_packet : (p : Packet) → IsPacket p → decode_packet (encode_packet p) ≡ p
unfolding decode_packet encode_packet
decode_packet-encode_packet p w =
    ap packet_of_words (words-unwords packet_layout (packet_words p) (packet-Fits p)) ∙ λ i.
    record {
      val = signed64-as_u64 p.val w.val_fits i;
      error = signed32-as_u32 p.error w.error_fits i;
      failure = signed32-as_u32 p.failure w.failure_fits i;
    }

pub length-encode_packet : (p : Packet) → length (encode_packet p) ≡ 16
unfolding encode_packet
length-encode_packet p = length-unwords packet_layout (packet_words p) (packet-Fits p)

-- The numbers of an outcome fit the fields of the packet, and an errno is not 0.
abbrev pub IsOutcome : Result SyscallStatus → Type 0
IsOutcome (ok (done val)) = IsI64 val
IsOutcome (ok (failed e)) = IsI32 e × (e ≢ pos 0)
IsOutcome (err (os e)) = IsI32 e × (e ≢ pos 0)
IsOutcome _ = Unit

-- What the parent is to report of the child's outcome: an error without a number becomes `EFAULT`.
abbrev pub reported : Result SyscallStatus → Option (Result SyscallStatus)
reported (ok s) = some (ok s)
reported (err (os e)) = some (err (os e))
reported (err _) = some (err (os efault))
reported _ = none

-- What the parent makes of the packet that the child sends for an outcome, if it sends one.
abbrev pub received : Result SyscallStatus → Option (Result SyscallStatus)
received r = elim (packet_of r) [
  | none ↦ none
  | some p ↦ some (status_of (decode_packet (encode_packet p)))
]

sent-IsPacket :
    (r : Result SyscallStatus) (p : Packet) → IsOutcome r → packet_of r ≡ some p → IsPacket p
unfolding packet_of
sent-IsPacket (ok (done v)) p w h = ground arith
sent-IsPacket (ok (failed e)) p w h = ground arith
sent-IsPacket (err (os e)) p w h = ground arith
sent-IsPacket (err (nix e)) p w h = ground arith
sent-IsPacket (err (io_kind e)) p w h = ground arith
sent-IsPacket (err message) p w h = ground arith
sent-IsPacket panic p w h = cc
sent-IsPacket hang p w h = cc

-- The packet of an outcome is read back in the parent as that outcome, with `EFAULT` for an error
-- that has no number; a panic sends no packet. The numbers have to fit their fields, and an errno
-- must not be 0.
pub received-eq-reported : (r : Result SyscallStatus) → IsOutcome r → received r ≡ reported r
unfolding packet_of status_of
received-eq-reported (ok (done v)) w =
    rw (decode_packet-encode_packet _ (sent-IsPacket (ok (done v)) _ w refl))
received-eq-reported (ok (failed e)) w =
    rw (decode_packet-encode_packet _ (sent-IsPacket (ok (failed e)) _ w refl)) (ground arith)
received-eq-reported (err (os e)) w =
    rw (decode_packet-encode_packet _ (sent-IsPacket (err (os e)) _ w refl)) (ground arith)
received-eq-reported (err (nix e)) w =
    rw (decode_packet-encode_packet _ (sent-IsPacket (err (nix e)) _ w refl))
received-eq-reported (err (io_kind e)) w =
    rw (decode_packet-encode_packet _ (sent-IsPacket (err (io_kind e)) _ w refl))
received-eq-reported (err message) w =
    rw (decode_packet-encode_packet _ (sent-IsPacket (err message) _ w refl))
received-eq-reported panic w = refl
received-eq-reported hang w = refl
