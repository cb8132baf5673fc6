-- ===== src/Ledger/Wrapped.antt =====
-- The descriptors that src/lxcseccomp.rs takes out of a control message, and those that it owns meanwhile.
use pve_lxc_syscalld.Base.{
  bind_is_ok, message, or_err, ◌>>=◌, ℤ, eq_ℤ, minus_one, err, signed32, Bytes, List, [], ◌∷◌,
  le_value, ◌&&◌, not, if◌then◌else◌, Bool, true, false, ok, ◌≡◌, ap, ◌∙◌, arith, some,
}
use pve_lxc_syscalld.Libc.{sol_socket, scm_rights}
use pve_lxc_syscalld.Io.Cmsg.{ControlMessage, next}
use pve_lxc_syscalld.Kernel.{Kernel, History}
use pve_lxc_syscalld.Kernel.Laws.{bind_ok}
use pve_lxc_syscalld.Process.PidFd.{PidFd, read_pid, try_from_fd}
use pve_lxc_syscalld.LxcSeccomp.{
  from_raw_fd, fds_of, exactly_two, message_fds, two_fds, wrapped, message_wrapped, fds_wrapped,
  found_wrapped,
}

from_raw_fd_keeps : (fd x : ℤ) → from_raw_fd fd ≡ ok x → (eq_ℤ fd minus_one ≡ false) × (x ≡ fd)
unfolding from_raw_fd
from_raw_fd_keeps fd x e = (ground (arith, e), ground (arith, e))

exactly_two_keeps : (fds : List ℤ) (p m : ℤ) → exactly_two fds ≡ ok (p, m) → fds ≡ p ∷ m ∷ []
unfolding exactly_two
exactly_two_keeps [] p m e = ground (arith, e)
exactly_two_keeps (a ∷ []) p m e = ground (arith, e)
exactly_two_keeps (a ∷ b ∷ []) p m e = ground (arith, e)
exactly_two_keeps (a ∷ b ∷ c ∷ fds) p m e = ground (arith, e)

fds_of-wrapped : (bs : Bytes) (fds : List ℤ) → fds_of bs ≡ ok fds → wrapped bs ≡ fds
unfolding fds_of from_raw_fd
fds_of-wrapped [] fds e = ground (arith, e)
fds_of-wrapped (a ∷ []) fds e = ground (arith, e)
fds_of-wrapped (a ∷ b ∷ []) fds e = ground (arith, e)
fds_of-wrapped (a ∷ b ∷ c ∷ []) fds e = ground (arith, e)
fds_of-wrapped (a ∷ b ∷ c ∷ d ∷ bs) fds e =
    let fd = signed32 (le_value (a ∷ b ∷ c ∷ d ∷ [])) in
    let (x, e1, f1) = bind_is_ok (from_raw_fd fd) _ e in
    let (xs, e2, f2) = bind_is_ok (fds_of bs) _ f1 in
    let (other, same) = from_raw_fd_keeps fd x e1 in
    rw (other, fds_of-wrapped bs xs e2) (ground (arith, f2, same))

message_fds-wrapped :
    (c : ControlMessage) (p m : ℤ) → message_fds c ≡ ok (p, m) → message_wrapped c ≡ p ∷ m ∷ []
unfolding message_fds exactly_two
message_fds-wrapped c p m e =
    decided (not (eq_ℤ c.cmsg_level sol_socket) && not (eq_ℤ c.cmsg_type scm_rights)) e
  where
    decided :
        (t : Bool)
        → (if t then err message else (fds_of c.payload >>= exactly_two)) ≡ ok (p, m)
        → (if t then [] else wrapped c.payload) ≡ p ∷ m ∷ []
    decided true f = absurd (ground (arith, f))
    decided false f =
        let (fds, e1, f1) = bind_is_ok (fds_of c.payload) exactly_two f in
        fds_of-wrapped c.payload fds e1 ∙ exactly_two_keeps fds p m f1

pub two_fds-wrapped :
    (control : Bytes) (p m : ℤ) → two_fds control ≡ ok (p, m) → fds_wrapped control ≡ p ∷ m ∷ []
unfolding two_fds
two_fds-wrapped control p m e =
    let (found, e1, f1) = bind_is_ok (next control) _ e in
    let (item, e2, f2) = bind_is_ok (or_err found message) _ f1 in
    let some_item : found ≡ some item = ground (arith, e2) in
    ap found_wrapped (e1 ∙ ap (λ o. ok o) some_item) ∙ message_fds-wrapped item.0 p m f2

pub try_from_fd_keeps :
    (fd : ℤ) (p : PidFd) (k : Kernel) (h h' : History) → try_from_fd fd k h ≡ (ok p, h') → p.fd ≡ fd
unfolding try_from_fd
try_from_fd_keeps fd p k h h' e =
    let (pid, h1, e1, f1) = bind_ok (read_pid (record { fd = fd; pid = minus_one })) _ k h e in
    ground (arith, f1)
