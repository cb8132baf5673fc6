-- ===== src/LxcSeccomp/Descriptors.antt =====
-- The part of `ProxyMessageBuffer::recv` that takes the descriptors out of the control messages.
use pve_lxc_syscalld.Base.{
  Option, some, ℤ, eq_ℤ, minus_one, panic, signed32, Bytes, List, [], ◌∷◌, le_value, ◌&&◌, not,
  if◌then◌else◌, Result, ok, err, message, ◌>>=◌, or_err,
}
use pve_lxc_syscalld.Libc.{sol_socket, scm_rights}
use pve_lxc_syscalld.Io.Cmsg.{ControlMessage}
use pve_lxc_syscalld.Io.Cmsg

-- `OwnedFd::from_raw_fd` asserts that the descriptor is not -1.
unfoldable pub from_raw_fd : ℤ → Result ℤ
from_raw_fd fd = if eq_ℤ fd minus_one then panic else ok fd

-- `chunks_exact(4)`, each read as a descriptor
unfoldable pub fds_of : Bytes → Result (List ℤ)
unfolding from_raw_fd
fds_of (a ∷ b ∷ c ∷ d ∷ bs) = do
  fd ← from_raw_fd (signed32 (le_value (a ∷ b ∷ c ∷ d ∷ [])))
  fds ← fds_of bs
  ok (fd ∷ fds)
fds_of _ = ok []

unfoldable pub exactly_two : List ℤ → Result (ℤ × ℤ)
exactly_two (p ∷ m ∷ []) = ok (p, m)
exactly_two _ = err message

-- The test of level and type joins its conditions by `&&`, as the source does.
unfoldable pub message_fds : ControlMessage → Result (ℤ × ℤ)
unfolding fds_of exactly_two
message_fds c =
    if not (eq_ℤ c.cmsg_level sol_socket) && not (eq_ℤ c.cmsg_type scm_rights)
    then err message
    else (fds_of c.payload >>= exactly_two)

-- The descriptors that `message_fds` wraps, which are dropped if there are not two: those before a -1.
abbrev pub wrapped : Bytes → List ℤ
wrapped (a ∷ b ∷ c ∷ d ∷ bs) =
    let fd = signed32 (le_value (a ∷ b ∷ c ∷ d ∷ [])) in
    let rest = wrapped bs in if eq_ℤ fd minus_one then [] else fd ∷ rest
wrapped _ = []

abbrev pub message_wrapped : ControlMessage → List ℤ
message_wrapped c =
    if not (eq_ℤ c.cmsg_level sol_socket) && not (eq_ℤ c.cmsg_type scm_rights)
    then []
    else wrapped c.payload

abbrev pub found_wrapped : Result (Option (ControlMessage × Bytes)) → List ℤ
found_wrapped (ok (some item)) = message_wrapped (item.0)
found_wrapped other = []

abbrev pub fds_wrapped : Bytes → List ℤ
fds_wrapped control = found_wrapped (Cmsg.next control)

unfoldable pub two_fds : Bytes → Result (ℤ × ℤ)
unfolding message_fds
two_fds control = do found ← Cmsg.next control; item ← or_err found message; message_fds (item.0)
