-- ===== src/Capability.antt =====
-- src/capability.rs: securebits and the capability sets of a process.
pub mod Laws
pub mod SecureBits
use pve_lxc_syscalld.Base.{
  ℕ, ℤ, pos, ◌/◌, ◌%◌, ◌^◌, as_u64, Option, some, none, ltb, if◌then◌else◌, List, [], ◌∷◌, Result,
  or_err, io_kind, kind_other,
}
use pve_lxc_syscalld.Kernel.{
  Action, ◌>>=◌, ◌>>◌, lift, pure, c_try, get_securebits, set_securebits, capset as sys_capset,
}

pub record Capabilities : Type 0 where
  pub inheritable : ℕ
  pub permitted : ℕ
  pub effective : ℕ

abbrev pub capability_version_3 : ℕ
capability_version_3 = 0x20080522

-- The two `Data` of the kernel ABI, low half first: (effective, permitted, inheritable).
unfoldable pub capset_data : Capabilities → List (ℕ × ℕ × ℕ)
capset_data c =
    (c.effective % 2 ^ 32, c.permitted % 2 ^ 32, c.inheritable % 2 ^ 32)
    ∷ (
      c.effective / 2 ^ 32 % 2 ^ 32,
      c.permitted / 2 ^ 32 % 2 ^ 32,
      c.inheritable / 2 ^ 32 % 2 ^ 32,
    )
    ∷ []

unfoldable pub capset : Capabilities → Action (Unit {0})
unfolding capset_data
capset c = do c_try (sys_capset capability_version_3 (pos 0) (capset_data c)); pure tt
