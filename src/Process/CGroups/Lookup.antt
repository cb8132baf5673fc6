-- ===== src/Process/CGroups/Lookup.antt =====
-- What an insertion changes for the lookup of a controller.
use pve_lxc_syscalld.Base.{
  ◌≡◌, refl, arith, Bytes, bytes_eq, List, [], ◌∷◌, Bool, true, false, ◌||◌, if◌then◌else◌, some,
}
use pve_lxc_syscalld.Process.CGroups.{
  CGroups, Controllers, lookup, insert, insert_all, get, or_default,
}

bytes_eq_sound : (xs ys : Bytes) → bytes_eq xs ys ≡ true → xs ≡ ys
bytes_eq_sound [] [] h = refl
bytes_eq_sound [] (y ∷ ys) h = cc
bytes_eq_sound (x ∷ xs) [] h = cc
bytes_eq_sound (x ∷ xs) (y ∷ ys) h = ground (arith, bytes_eq_sound xs ys)

bytes_eq_refl : (xs : Bytes) → bytes_eq xs xs ≡ true
bytes_eq_refl [] = refl
bytes_eq_refl (x ∷ xs) = ground (arith, bytes_eq_refl xs)

lookup-insert :
    (x n p : Bytes) (m : Controllers)
    → lookup x (insert n p m) ≡ (if bytes_eq x n then some p else lookup x m)
unfolding lookup insert
lookup-insert x n p [] = refl
lookup-insert x n p ((a, q) ∷ m) = ground (
  arith,
  lookup-insert x n p m,
  bytes_eq_sound n a,
  bytes_eq_sound x a,
  bytes_eq_sound x n,
  bytes_eq_refl a,
)

-- The name is one of these.
abbrev pub is_named : Bytes → List Bytes → Bool
is_named x [] = false
is_named x (n ∷ ns) = bytes_eq x n || is_named x ns

pub lookup-insert_all :
    (x : Bytes) (ns : List Bytes) (p : Bytes) (m : Controllers)
    → lookup x (insert_all ns p m) ≡ (if is_named x ns then some p else lookup x m)
unfolding insert_all
lookup-insert_all x [] p m = refl
lookup-insert_all x (n ∷ ns) p m =
    ground (arith, lookup-insert_all x ns p (insert n p m), lookup-insert x n p m)

pub lookup_default : (x : Bytes) (c : CGroups) → lookup x (or_default c.v1) ≡ get c x
unfolding get or_default lookup
lookup_default x c = ground arith
