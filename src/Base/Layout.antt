-- ===== src/Base/Layout.antt =====
-- The bytes of a `repr(C)` structure of unsigned words: its fields by width, lowest byte first.
use Prim.Native.Nat.{ℕ, zero, suc, ◌+◌, ◌≤◌, ◌<◌, ◌^◌}
use mathlib.Core.Path.{◌≡◌, refl, ap, ap₂, ◌∙◌, sym}
use mathlib.Core.List.{List, [], ◌∷◌, ◌++◌}
use native.Mathlib.Omega.{arith}
use pve_lxc_syscalld.Base.Lists.{
  Bytes, length, take, drop, All, IsByte, le_bytes, le_value, le_bytes-le_value, le_value-le_bytes,
  length-le_bytes, length-append, length-take, length-drop, take-append, drop-append,
  take-append-drop,
}

unfoldable pub words : List ℕ → Bytes → List ℕ
words [] bs = []
words (w ∷ ws) bs = le_value (take w bs) ∷ words ws (drop w bs)

unfoldable pub unwords : List ℕ → List ℕ → Bytes
unwords [] vs = []
unwords (w ∷ ws) [] = []
unwords (w ∷ ws) (v ∷ vs) = le_bytes w v ++ unwords ws vs

abbrev pub total : List ℕ → ℕ
total [] = 0
total (w ∷ ws) = w + total ws

-- Each value fits its width, and there is one for each.
abbrev pub Fits : List ℕ → List ℕ → Type 0
Fits [] [] = Unit
Fits (w ∷ ws) (v ∷ vs) = (v < 256 ^ w) × Fits ws vs
Fits _ _ = ⊥

pub All-append {ℓ κ} :
    {A : Type ℓ} (P : A → Type κ) (xs ys : List A) → All P xs → All P ys → All P (xs ++ ys)
All-append P [] ys hx hy = hy
All-append P (x ∷ xs) ys hx hy = (hx.0, All-append P xs ys hx.1 hy)

pub All-take {ℓ κ} :
    {A : Type ℓ} (P : A → Type κ) (n : ℕ) (xs : List A) → All P xs → All P (take n xs)
All-take P zero xs h = tt
All-take P (suc n) [] h = tt
All-take P (suc n) (x ∷ xs) (p, h) = (p, All-take P n xs h)

pub All-drop {ℓ κ} :
    {A : Type ℓ} (P : A → Type κ) (n : ℕ) (xs : List A) → All P xs → All P (drop n xs)
All-drop P zero xs h = h
All-drop P (suc n) [] h = tt
All-drop P (suc n) (x ∷ xs) (p, h) = All-drop P n xs h

pub le_bytes-take :
    (w : ℕ) (bs : Bytes)
    → w ≤ length bs
    → All IsByte bs
    → le_bytes w (le_value (take w bs)) ≡ take w bs
le_bytes-take w bs h b =
    let e : length (take w bs) ≡ w = omega (arith, length-take w bs) in
    ap (λ n. le_bytes n (le_value (take w bs))) (sym e)
    ∙ le_bytes-le_value (take w bs) (All-take IsByte w bs b)

-- Bytes that are read as a structure and written back are the same bytes.
pub unwords-words :
    (ws : List ℕ) (bs : Bytes)
    → length bs ≡ total ws
    → All IsByte bs
    → unwords ws (words ws bs) ≡ bs
unfolding words unwords
unwords-words [] [] h b = refl
unwords-words [] (x ∷ xs) h b = absurd (omega arith)
unwords-words (w ∷ ws) bs h b =
    ap₂ (λ s t. s ++ t) (le_bytes-take w bs (omega arith) b)
      (unwords-words ws (drop w bs) (omega (arith, length-drop w bs)) (All-drop IsByte w bs b))
    ∙ take-append-drop w bs

pub take-le_bytes : (w v : ℕ) (bs : Bytes) → take w (le_bytes w v ++ bs) ≡ le_bytes w v
take-le_bytes w v bs =
    ap (λ n. take n (le_bytes w v ++ bs)) (sym (length-le_bytes w v))
    ∙ take-append (le_bytes w v) bs

pub drop-le_bytes : (w v : ℕ) (bs : Bytes) → drop w (le_bytes w v ++ bs) ≡ bs
drop-le_bytes w v bs =
    ap (λ n. drop n (le_bytes w v ++ bs)) (sym (length-le_bytes w v))
    ∙ drop-append (le_bytes w v) bs

-- Values that fit are read back.
pub words-unwords : (ws vs : List ℕ) → Fits ws vs → words ws (unwords ws vs) ≡ vs
unfolding words unwords
words-unwords [] [] h = refl
words-unwords [] (v ∷ vs) h = absurd h
words-unwords (w ∷ ws) [] h = absurd h
words-unwords (w ∷ ws) (v ∷ vs) (p, h) =
    rw (take-le_bytes, drop-le_bytes, le_value-le_bytes w v p)
      (ap (λ t. v ∷ t) (words-unwords ws vs h))

pub length-unwords : (ws vs : List ℕ) → Fits ws vs → length (unwords ws vs) ≡ total ws
unfolding unwords
length-unwords [] [] h = refl
length-unwords [] (v ∷ vs) h = refl
length-unwords (w ∷ ws) [] h = absurd h
length-unwords (w ∷ ws) (v ∷ vs) (p, h) = omega (
  arith,
  length-append (le_bytes w v) (unwords ws vs),
  length-le_bytes w v,
  length-unwords ws vs h,
)
