-- ===== src/Process/Text/Numbers.antt =====
-- Numbers in text, as pid_fd.rs parses them and prints them.
use pve_lxc_syscalld.Base.{
  true, false, All-append, Bool, ℕ, zero, suc, ◌+◌, ◌*◌, ◌/◌, ◌%◌, ◌^◌, ◌≤◌, ◌<◌, ◌≡◌, ◌≢◌, refl,
  ◌∙◌, Bytes, [], ◌∷◌, ◌++◌, All, Option, some, none, ltb, if◌then◌else◌, arith,
}
use native.Mathlib.Nat.{pow-suc}
use pve_lxc_syscalld.Process.Text.{to_digit, parse_digits, from_str_radix, print_digits, print_ℕ}

abbrev pub IsDigit : ℕ → Type 0
IsDigit c = (48 ≤ c) × (c ≤ 57)

-- What follows more digits.
abbrev then_digits : ℕ → ℕ → Bytes → Option ℕ → Option ℕ
then_digits radix limit cs none = none
then_digits radix limit cs (some v) = parse_digits radix limit cs v

parse_digits-append :
    (radix limit : ℕ) (xs ys : Bytes) (acc : ℕ)
    → parse_digits radix limit (xs ++ ys) acc
      ≡ then_digits radix limit ys (parse_digits radix limit xs acc)
unfolding parse_digits
parse_digits-append radix limit [] ys acc = refl
parse_digits-append radix limit (c ∷ xs) ys acc =
    go (to_digit radix c) (λ d. parse_digits-append radix limit xs ys (acc * radix + d))
  where
    go :
        (o : Option ℕ)
        → ((d : ℕ)
            → parse_digits radix limit (xs ++ ys) (acc * radix + d)
              ≡ then_digits radix limit ys (parse_digits radix limit xs (acc * radix + d)))
        → elim o [
          | none ↦ none
          | some d ↦
              let acc' = acc * radix + d in
              let rest = parse_digits radix limit (xs ++ ys) acc' in
              if ltb acc' limit then rest else none
        ]
          ≡ then_digits radix limit ys (elim o [
            | none ↦ none
            | some d ↦
                let acc' = acc * radix + d in
                let rest = parse_digits radix limit xs acc' in if ltb acc' limit then rest else none
          ])
    go none ih = refl
    go (some d) ih = rw (ih d) (ground arith)

-- The digits of a number are read back as it.
parse_digits-print_digits :
    (f n limit : ℕ)
    → n < 10 ^ f
    → n < limit
    → 0 < f
    → parse_digits 10 limit (print_digits f n) 0 ≡ some n
unfolding parse_digits print_digits
parse_digits-print_digits zero n limit h l p = absurd (omega arith)
parse_digits-print_digits (suc f) n limit h l p =
    split (ltb n 10) refl
      λ q. parse_digits-print_digits f (n / 10) limit (omega (arith, pow-suc 10 f)) (omega arith) q
  where
    last : (m c : ℕ) → c < 10 → m * 10 + c ≡ n → parse_digits 10 limit ((48 + c) ∷ []) m ≡ some n
    last m c q e = ground arith

    positive : (f : ℕ) → n < 10 ^ suc f → 10 ≤ n → 0 < f
    positive zero h g = absurd (omega arith)
    positive (suc f) h g = omega arith

    split :
        (b : Bool)
        → ltb n 10 ≡ b
        → (0 < f → parse_digits 10 limit (print_digits f (n / 10)) 0 ≡ some (n / 10))
        → parse_digits 10 limit (print_digits (suc f) n) 0 ≡ some n
    split true e ih = rw e (last 0 n (ground arith) (omega arith))
    split false e ih =
        rw (e, parse_digits-append, ih (positive f h (ground arith)))
          (last (n / 10) (n % 10) (omega arith) (omega arith))

-- Each digit that is printed is one.
print_digits-IsDigit : (f n : ℕ) → All IsDigit (print_digits f n)
unfolding print_digits
print_digits-IsDigit zero n = tt
print_digits-IsDigit (suc f) n = split (ltb n 10) refl (
    All-append IsDigit (print_digits f (n / 10)) ((48 + n % 10) ∷ [])
      (print_digits-IsDigit f (n / 10)) ((omega arith, omega arith), tt))
  where
    split :
        (b : Bool)
        → ltb n 10 ≡ b
        → All IsDigit (print_digits f (n / 10) ++ (48 + n % 10) ∷ [])
        → All IsDigit (print_digits (suc f) n)
    split true e w = rw e ((omega arith, ground arith), tt)
    split false e w = rw e w

append-ne-nil : (xs : Bytes) (c : ℕ) → xs ++ c ∷ [] ≢ []
append-ne-nil [] c = ground arith
append-ne-nil (x ∷ xs) c = ground arith

print_digits-ne-nil : (f n : ℕ) → print_digits (suc f) n ≢ []
unfolding print_digits
print_digits-ne-nil f n = ground (arith, append-ne-nil (print_digits f (n / 10)) (48 + n % 10))

digits_parsed :
    (limit : ℕ) (bs : Bytes)
    → bs ≢ []
    → All IsDigit bs
    → from_str_radix 10 limit bs ≡ parse_digits 10 limit bs 0
unfolding from_str_radix
digits_parsed limit [] p d = absurd (p refl)
digits_parsed limit (c ∷ []) p d = refl
digits_parsed limit (c ∷ e ∷ cs) p d = ground arith

pub print_ℕ-IsDigit : (n : ℕ) → All IsDigit (print_ℕ n)
unfolding print_ℕ
print_ℕ-IsDigit n = print_digits-IsDigit 20 n

pub print_ℕ-ne-nil : (n : ℕ) → print_ℕ n ≢ []
unfolding print_ℕ
print_ℕ-ne-nil n = print_digits-ne-nil 19 n

-- A number of a type with values below `limit`, and of at most 20 digits, is parsed back from its print.
pub from_str_radix-print_ℕ :
    (n limit : ℕ) → n < limit → n < 10 ^ 20 → from_str_radix 10 limit (print_ℕ n) ≡ some n
unfolding print_ℕ
from_str_radix-print_ℕ n limit l h =
    digits_parsed limit (print_ℕ n) (print_ℕ-ne-nil n) (print_ℕ-IsDigit n) ∙ parsed
  where
    parsed : parse_digits 10 limit (print_ℕ n) 0 ≡ some n
    parsed = parse_digits-print_digits 20 n limit h l (omega arith)
