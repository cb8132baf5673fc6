-- ===== src/Syscall/CString.antt =====
-- Strings from the caller's memory.
use pve_lxc_syscalld.Base.{
  ◌≤◌, ◌≡◌, ◌≢◌, refl, Bytes, [], ◌∷◌, ◌++◌, length, length-append, take, All, some, ok, err, panic,
  nix, arith,
}
use pve_lxc_syscalld.Libc.{einval}
use pve_lxc_syscalld.Syscall.{strnlen, c_string, terminated}

abbrev pub NoNul : Bytes → Type 0
NoNul = All (λ b. b ≢ 0)

strnlen-le : (bs : Bytes) → strnlen bs ≤ length bs
unfolding strnlen
strnlen-le [] = omega arith
strnlen-le (b ∷ bs) = ground (arith, strnlen-le bs)

c_string-take : (bs : Bytes) → c_string (take (strnlen bs) bs) ≡ some (take (strnlen bs) bs)
unfolding c_string strnlen
c_string-take [] = refl
c_string-take (b ∷ bs) = ground (arith, c_string-take bs)

strnlen-append :
    (s rest : Bytes)
    → NoNul s
    → (strnlen (s ++ 0 ∷ rest) ≡ length s) × (take (strnlen (s ++ 0 ∷ rest)) (s ++ 0 ∷ rest) ≡ s)
unfolding strnlen
strnlen-append [] rest h = (refl, refl)
strnlen-append (b ∷ s) rest (p, h) = ground (arith, strnlen-append s rest h)

strnlen_all : (s : Bytes) → NoNul s → strnlen s ≡ length s
unfolding strnlen
strnlen_all [] h = refl
strnlen_all (b ∷ s) (p, h) = ground (arith, strnlen_all s h)

-- Of bytes that hold a string and its terminator, exactly the string is returned, whatever follows.
pub terminated-append : (s rest : Bytes) → NoNul s → terminated (s ++ 0 ∷ rest) ≡ ok s
unfolding terminated
terminated-append s rest h =
    ground
      (arith, strnlen-append s rest h, c_string-take (s ++ 0 ∷ rest), length-append s (0 ∷ rest))

-- Without a terminator among the bytes that could be read, the string is refused.
pub terminated_none : (s : Bytes) → NoNul s → terminated s ≡ err (nix einval)
unfolding terminated
terminated_none s h = ground (arith, strnlen_all s h)

-- `CString::new(data).unwrap()` cannot panic.
pub terminated-ne-panic : (bs : Bytes) → terminated bs ≢ panic
unfolding terminated
terminated-ne-panic bs = ground (arith, c_string-take bs)
