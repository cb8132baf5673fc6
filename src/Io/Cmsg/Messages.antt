-- ===== src/Io/Cmsg/Messages.antt =====
-- Control messages as the kernel lays them out, and what the iterator of src/io/cmsg.rs makes of them.
use pve_lxc_syscalld.Base.{
  All, drop-le_bytes, ◌||◌, take-le_bytes, ℕ, zero, suc, ◌+◌, ◌-◌, ◌^◌, ◌<◌, ◌≤◌, ◌≡◌, refl, sym,
  ap, ◌∙◌, arith, Bytes, List, [], ◌∷◌, ◌++◌, length, length-append, length-le_bytes, take, drop,
  take-append, drop-append, replicate, length-replicate, le_bytes, le_value, le_value-le_bytes,
  as_u32, as_u32-lt, signed32, signed32-as_u32, IsI32, ltb, leb, if◌then◌else◌, false, some, none,
  ok,
}
use pve_lxc_syscalld.Io.Cmsg.{ControlMessage, align, capacity, next, slice, iter}

-- What the fields of a message have to be for its header.
pub record Fits (m : ControlMessage) : Type 0 where
  pub level_fits : IsI32 m.cmsg_level
  pub type_fits : IsI32 m.cmsg_type
  pub payload_fits : length m.payload < 2 ^ 32

-- A message with its header, padded to a multiple of eight bytes, and what comes after it.
abbrev pub placed : ControlMessage → Bytes → Bytes
placed m rest =
    le_bytes 8 (16 + length m.payload)
    ++ (le_bytes 4 (as_u32 m.cmsg_level)
        ++ (le_bytes 4 (as_u32 m.cmsg_type)
            ++ (m.payload ++ (replicate (align (length m.payload) - length m.payload) 0 ++ rest))))

abbrev pub all_placed : List ControlMessage → Bytes
all_placed [] = []
all_placed (m ∷ ms) = placed m (all_placed ms)

word_read : (w n : ℕ) (bs : Bytes) → n < 256 ^ w → le_value (take w (le_bytes w n ++ bs)) ≡ n
word_read w n bs h = rw take-le_bytes (le_value-le_bytes w n h)

drop_nil : (n : ℕ) → ◌≡◌ {A = Bytes} (drop n []) []
drop_nil zero = refl
drop_nil (suc n) = refl

drop_add : (a b : ℕ) (bs : Bytes) → drop (a + b) bs ≡ drop b (drop a bs)
drop_add zero b bs = ap (λ n. drop n bs) (omega arith)
drop_add (suc a) b [] = drop_nil (suc a + b) ∙ sym (drop_nil b)
drop_add (suc a) b (x ∷ bs) =
    let e : suc a + b ≡ suc (a + b) = omega arith in ap (λ n. drop n (x ∷ bs)) e ∙ drop_add a b bs

behind :
    (n : ℕ) (bs rest : Bytes)
    → drop n bs ≡ rest
    → length bs ≡ n + length rest
    → (if leb (length bs) n then [] else drop n bs) ≡ rest
behind n bs [] e l = ground (arith, e)
behind n bs (x ∷ rest) e l = ground (arith, e)

-- What the iterator reads, if the words of the header and the bytes behind it are these.
next_reads :
    (buf rest : Bytes) (m : ControlMessage)
    → Fits m
    → le_value (take 8 buf) ≡ 16 + length m.payload
    → le_value (take 4 (drop 8 buf)) ≡ as_u32 m.cmsg_level
    → le_value (take 4 (drop 12 buf)) ≡ as_u32 m.cmsg_type
    → take (length m.payload) (drop 16 buf) ≡ m.payload
    → drop (align (16 + length m.payload)) buf ≡ rest
    → length buf ≡ align (16 + length m.payload) + length rest
    → next buf ≡ ok (some (m, rest))
unfolding next slice align
next_reads buf rest m w e1 e2 e3 e4 e5 l =
    let n : ℕ = length m.payload in
    let sized : 16 + n - 16 ≡ n = omega arith in
    let aligned : (16 + n ≤ align (16 + n)) = omega arith in
    let payload : take (le_value (take 8 buf) - 16) (drop 16 buf) ≡ m.payload =
      ap (λ j. take (j - 16) (drop 16 buf)) e1 ∙ (ap (λ j. take j (drop 16 buf)) sized ∙ e4) in
    let tail : (if leb (length buf) (align (le_value (take 8 buf)))
          then []
          else drop (align (le_value (take 8 buf))) buf)
        ≡ rest =
      rw e1 (behind (align (16 + n)) buf rest e5 l) in
    let level : signed32 (le_value (take 4 (drop 8 buf))) ≡ m.cmsg_level =
      ap (λ j. signed32 j) e2 ∙ signed32-as_u32 m.cmsg_level w.level_fits in
    let type : signed32 (le_value (take 4 (drop 12 buf))) ≡ m.cmsg_type =
      ap (λ j. signed32 j) e3 ∙ signed32-as_u32 m.cmsg_type w.type_fits in
    let whole : ltb (length buf) 16 ≡ false = ground (arith, l, aligned) in
    let inside : ltb (le_value (take 8 buf)) 16 || ltb (length buf) (le_value (take 8 buf))
        ≡ false =
      ground (arith, e1, l, aligned) in
    ground (arith, whole, inside, payload, tail, level, type)

drop_whole : (n : ℕ) (xs ys : Bytes) → length xs ≡ n → drop n (xs ++ ys) ≡ ys
drop_whole n xs ys e = ap (λ j. drop j (xs ++ ys)) (sym e) ∙ drop-append xs ys

take_whole : (n : ℕ) (xs ys : Bytes) → length xs ≡ n → take n (xs ++ ys) ≡ xs
take_whole n xs ys e = ap (λ j. take j (xs ++ ys)) (sym e) ∙ take-append xs ys

-- The sizes of a message: its payload, and the padding behind it.
aligned_size : (n : ℕ) → n < 2 ^ 32 → align (16 + n) ≡ 16 + (n + (align n - n))
unfolding align
aligned_size n h = omega arith

-- The room of `capacity` is what header, payload and padding take.
capacity_lem : (n : ℕ) → n < 2 ^ 32 → capacity n ≡ 16 + (n + (align n - n))
unfolding capacity align
capacity_lem n h = omega arith

length-placed :
    (m : ControlMessage) (rest : Bytes)
    → Fits m
    → length (placed m rest) ≡ capacity (length m.payload) + length rest
length-placed m rest w =
    let n : ℕ = length m.payload in
    let pad : Bytes = replicate (align n - n) 0 in
    let tail3 : Bytes = m.payload ++ (pad ++ rest) in
    let tail2 : Bytes = le_bytes 4 (as_u32 m.cmsg_type) ++ tail3 in
    let tail1 : Bytes = le_bytes 4 (as_u32 m.cmsg_level) ++ tail2 in
    omega (
      arith,
      capacity_lem n w.payload_fits,
      length-append (le_bytes 8 (16 + n)) tail1,
      length-append (le_bytes 4 (as_u32 m.cmsg_level)) tail2,
      length-append (le_bytes 4 (as_u32 m.cmsg_type)) tail3,
      length-append m.payload (pad ++ rest),
      length-append pad rest,
      length-replicate {A = ℕ} (align n - n) 0,
      length-le_bytes 8 (16 + n),
      length-le_bytes 4 (as_u32 m.cmsg_level),
      length-le_bytes 4 (as_u32 m.cmsg_type),
    )

-- A message that was placed before some bytes is the next one, and leaves these.
next-placed :
    (m : ControlMessage) (rest : Bytes) → Fits m → next (placed m rest) ≡ ok (some (m, rest))
next-placed m rest w =
    let n : ℕ = length m.payload in
    let pad : Bytes = replicate (align n - n) 0 in
    let tail3 : Bytes = m.payload ++ (pad ++ rest) in
    let tail2 : Bytes = le_bytes 4 (as_u32 m.cmsg_type) ++ tail3 in
    let tail1 : Bytes = le_bytes 4 (as_u32 m.cmsg_level) ++ tail2 in
    let buf : Bytes = le_bytes 8 (16 + n) ++ tail1 in
    let d8 : drop 8 buf ≡ tail1 = drop-le_bytes 8 (16 + n) tail1 in
    let d12 : drop 12 buf ≡ tail2 =
      drop_add 8 4 buf ∙ (ap (λ t. drop 4 t) d8 ∙ drop-le_bytes 4 (as_u32 m.cmsg_level) tail2) in
    let d16 : drop 16 buf ≡ tail3 =
      drop_add 12 4 buf ∙ (ap (λ t. drop 4 t) d12 ∙ drop-le_bytes 4 (as_u32 m.cmsg_type) tail3) in
    let size = aligned_size n w.payload_fits in
    next_reads buf rest m w (word_read 8 (16 + n) tail1 (omega arith))
      (ap (λ t. le_value (take 4 t)) d8
        ∙ word_read 4 (as_u32 m.cmsg_level) tail2 (as_u32-lt m.cmsg_level))
      (ap (λ t. le_value (take 4 t)) d12
        ∙ word_read 4 (as_u32 m.cmsg_type) tail3 (as_u32-lt m.cmsg_type))
      (ap (λ t. take n t) d16 ∙ take_whole n m.payload (pad ++ rest) refl)
      (ap (λ j. drop j buf) size
        ∙ (drop_add 16 (n + (align n - n)) buf
            ∙ (ap (λ t. drop (n + (align n - n)) t) d16
                ∙ (drop_add n (align n - n) tail3
                    ∙ (ap (λ t. drop (align n - n) t) (drop_whole n m.payload (pad ++ rest) refl)
                        ∙ drop_whole (align n - n) pad rest (length-replicate (align n - n) 0))))))
      (length-placed m rest w
        ∙ ap (λ j. j + length rest) (omega (arith, size, capacity_lem n w.payload_fits)))

-- The calls of `next` on a buffer give these messages and then none.
pub data Yields : Bytes → List ControlMessage → Type 0 where
  ended : {buf : Bytes} → next buf ≡ ok none → Yields buf []
  yielded :
      {buf rest : Bytes} {m : ControlMessage} {ms : List ControlMessage}
      → next buf ≡ ok (some (m, rest))
      → Yields rest ms
      → Yields buf (m ∷ ms)

-- The iterator over messages that are laid out one after the other, as the kernel does it, gives exactly
-- these, with their levels, types and payloads. A payload has to be shorter than 2^32.
pub iter-Yields : (ms : List ControlMessage) → All Fits ms → Yields (iter (all_placed ms)) ms
unfolding iter next
iter-Yields [] w = ended refl
iter-Yields (m ∷ ms) (w, ws) = yielded (next-placed m (all_placed ms) w) (iter-Yields ms ws)
