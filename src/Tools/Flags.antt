-- ===== src/Tools/Flags.antt =====
-- What `set_fd_nonblocking` of src/tools.rs does to a descriptor.
use pve_lxc_syscalld.Base.{
  ap, ◌∙◌, ℕ, ◌/◌, ◌%◌, ◌^◌, ◌<◌, ◌≡◌, refl, arith, pos, minus_one, eq_ℤ, as_u32, Bool, true, false,
  some, ok, ◌∷◌,
}
use pve_lxc_syscalld.Kernel.{Kernel, History, get_status_flags, set_status_flags}
use pve_lxc_syscalld.Tools.{with_nonblock, set_fd_nonblocking}

abbrev pub bit_of : Bool → ℕ
bit_of true = 1
bit_of false = 0

-- Only the bit of O_NONBLOCK is changed, and it is as asked for.
with_nonblock_lem :
    (on : Bool) (flags : ℕ)
    → (with_nonblock on flags / 2 ^ 11 % 2 ≡ bit_of on)
      × (with_nonblock on flags % 2 ^ 11 ≡ flags % 2 ^ 11)
      × (with_nonblock on flags / 2 ^ 12 ≡ flags / 2 ^ 12)
unfolding with_nonblock
with_nonblock_lem on flags = (ground arith, ground arith, ground arith)

-- Where the descriptor's flags are known and may be set, making it block or not block makes two calls:
-- the flags are read, and set to others that differ in O_NONBLOCK alone, which is as asked for.
pub set_fd_nonblocking_lem :
    (on : Bool) (flags new : ℕ) (k : Kernel) (h : History)
    → (k.reply h get_status_flags).res ≡ pos flags
    → flags < 2 ^ 31
    → k.flags_from_bits flags ≡ some flags
    → with_nonblock on flags ≡ new
    → eq_ℤ (k.reply (get_status_flags ∷ h) (set_status_flags new)).res minus_one ≡ false
    → (set_fd_nonblocking on k h ≡ (
      ok (k.reply (get_status_flags ∷ h) (set_status_flags new)).res,
      set_status_flags new ∷ get_status_flags ∷ h,
    ))
      × (new / 2 ^ 11 % 2 ≡ bit_of on)
      × (new % 2 ^ 11 ≡ flags % 2 ^ 11)
      × (new / 2 ^ 12 ≡ flags / 2 ^ 12)
unfolding set_fd_nonblocking
set_fd_nonblocking_lem on flags new k h r small known e fine =
    let (p, q, t) = with_nonblock_lem on flags in
    let word : as_u32 (k.reply h get_status_flags).res ≡ flags = ap as_u32 r ∙ omega arith in
    let got : eq_ℤ (k.reply h get_status_flags).res minus_one ≡ false =
      ap (λ z. eq_ℤ z minus_one) r in
    (rw got (rw (word, known) (rw (e, fine) refl)), rw (← e) p, rw (← e) q, rw (← e) t)
