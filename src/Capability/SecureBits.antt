-- ===== src/Capability/SecureBits.antt =====
-- `SecureBits` of src/capability.rs.
use pve_lxc_syscalld.Base.{ℕ, as_u64, Option, some, none, ltb, if◌then◌else◌, or_err, io_format_err}
use pve_lxc_syscalld.Kernel.{
  Action, ◌>>=◌, ◌>>◌, lift, pure, c_try, c_result, get_securebits, set_securebits,
}

abbrev pub no_setuid_fixup : ℕ
no_setuid_fixup = 0x4

abbrev pub keep_caps : ℕ
keep_caps = 0x10

-- Every bit that the type declares: the eight flags from NOROOT to NO_CAP_AMBIENT_RAISE_LOCKED.
abbrev pub all_flags : ℕ
all_flags = 0xff

-- `from_bits` refuses a value with a bit that is not declared.
unfoldable pub from_bits : ℕ → Option ℕ
from_bits bits = if ltb all_flags bits then none else some bits

unfoldable pub apply : ℕ → Action (Unit {0})
unfolding c_result
apply bits = do c_try (set_securebits bits); pure tt

unfoldable pub get_current : Action ℕ
unfolding from_bits c_result
get_current = do r ← c_try get_securebits; lift (or_err (from_bits (as_u64 r.res)) io_format_err)
