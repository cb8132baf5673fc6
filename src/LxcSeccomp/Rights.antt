-- ===== src/LxcSeccomp/Rights.antt =====
-- The control message with two descriptors, in src/lxcseccomp.rs.
use pve_lxc_syscalld.Base.{
  ℤ, ◌≡◌, ◌≢◌, ◌⊎◌, Bytes, ◌++◌, le_bytes, le_value, le_value-le_bytes, as_u32, as_u32-lt, signed32,
  signed32-as_u32, IsI32, minus_one, ok, arith, ◌∙◌, ap,
}
use pve_lxc_syscalld.Libc.{sol_socket, scm_rights}
use pve_lxc_syscalld.Io.Cmsg.{next, slice, align}
use pve_lxc_syscalld.LxcSeccomp.{two_fds, message_fds, fds_of, exactly_two, from_raw_fd}

-- A control message of the given level and type, with two descriptors.
abbrev pub two_rights : ℤ → ℤ → ℤ → ℤ → Bytes
two_rights level type p m =
    le_bytes 8 24
    ++ le_bytes 4 (as_u32 level)
    ++ le_bytes 4 (as_u32 type)
    ++ le_bytes 4 (as_u32 p)
    ++ le_bytes 4 (as_u32 m)

read_back : (z : ℤ) → IsI32 z → signed32 (le_value (le_bytes 4 (as_u32 z))) ≡ z
read_back z h =
    ap (λ w. signed32 w) (le_value-le_bytes 4 (as_u32 z) (as_u32-lt z)) ∙ signed32-as_u32 z h

-- Two descriptors other than -1 are taken out of a control message if its level is SOL_SOCKET or its
-- type is SCM_RIGHTS; one of the two is enough.
pub two_fds-two_rights :
    (level type p m : ℤ)
    → IsI32 level
    → IsI32 type
    → IsI32 p
    → IsI32 m
    → (level ≡ sol_socket) ⊎ (type ≡ scm_rights)
    → p ≢ minus_one
    → m ≢ minus_one
    → two_fds (two_rights level type p m) ≡ ok (p, m)
unfolding two_fds message_fds fds_of exactly_two from_raw_fd next slice align le_bytes le_value
two_fds-two_rights level type p m hl ht hp hm right np nm =
    rw (read_back level hl, read_back type ht, read_back p hp, read_back m hm) (ground arith)
