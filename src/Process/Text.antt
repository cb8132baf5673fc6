-- ===== src/Process/Text.antt =====
-- The functions of Rust's standard library by which pid_fd.rs reads the files of /proc: lines,
-- white space, and numbers in a radix.
pub mod Numbers
pub mod Lines
use pve_lxc_syscalld.Base.{
  ℕ, zero, suc, ◌+◌, ◌-◌, ◌*◌, ◌/◌, ◌%◌, ◌^◌, Bool, true, false, ◌&&◌, ◌||◌, ltb, leb, ◌==◌,
  if◌then◌else◌, Bytes, List, [], ◌∷◌, ◌++◌, Option, none, some, Result, ok, err, Error, io_kind,
  invalid_data, ℤ, pos, negsuc,
}

-- After a UTF-8 lead byte: how many bytes follow, and the range of the next one.
unfoldable pub utf8_lead : ℕ → Option (ℕ × ℕ × ℕ)
utf8_lead b =
    if ltb b 0x80
    then some (0, 0, 0)
    else if leb 0xc2 b && leb b 0xdf
    then some (1, 0x80, 0xbf)
    else if b == 0xe0
    then some (2, 0xa0, 0xbf)
    else if b == 0xed
    then some (2, 0x80, 0x9f)
    else if leb 0xe1 b && leb b 0xef
    then some (2, 0x80, 0xbf)
    else if b == 0xf0
    then some (3, 0x90, 0xbf)
    else if leb 0xf1 b && leb b 0xf3
    then some (3, 0x80, 0xbf)
    else if b == 0xf4
    then some (3, 0x80, 0x8f)
    else none

unfoldable pub utf8_rest : Bytes → ℕ → ℕ → ℕ → Bool
unfolding utf8_lead
utf8_rest [] zero lo hi = true
utf8_rest [] (suc k) lo hi = false
utf8_rest (b ∷ bs) zero lo hi = elim (utf8_lead b) [
  | none ↦ false
  | some (k, lo', hi') ↦ utf8_rest bs k lo' hi'
]
utf8_rest (b ∷ bs) (suc k) lo hi = leb lo b && leb b hi && utf8_rest bs k 0x80 0xbf

-- `str::from_utf8(bs).is_ok()`
unfoldable pub is_utf8 : Bytes → Bool
unfolding utf8_rest
is_utf8 bs = utf8_rest bs 0 0 0

-- `reader.split(b'\n')`: the pieces up to each newline, and what follows the last one if that is
-- not empty. A reader that fails (`failure`) delivers the whole lines before, then the error.
unfoldable pub split_lines : Bytes → Bytes → Option Error → List (Result Bytes)
split_lines [] [] none = []
split_lines [] (c ∷ cur) none = ok (c ∷ cur) ∷ []
split_lines [] cur (some e) = err e ∷ []
split_lines (b ∷ bs) cur failure =
    if b == b'\n'
    then ok cur ∷ split_lines bs [] failure
    else split_lines bs (cur ++ b ∷ []) failure

-- `BufRead::lines` also takes a carriage return off the end, and refuses what is not UTF-8.
unfoldable pub trim_cr : Bytes → Bytes
trim_cr [] = []
trim_cr (b ∷ []) = if b == b'\r' then [] else b ∷ []
trim_cr (b ∷ c ∷ bs) = b ∷ trim_cr (c ∷ bs)

unfoldable pub text_line : Result Bytes → Result Bytes
unfolding trim_cr is_utf8
text_line r = elim r [
  | ok bs ↦ if is_utf8 bs then ok (trim_cr bs) else err (io_kind invalid_data)
  | other ↦ other
]

abbrev pub is_ascii_whitespace : ℕ → Bool
is_ascii_whitespace b = b == 0x20 || b == 0x09 || b == 0x0a || b == 0x0c || b == 0x0d

-- `split_ascii_whitespace`: the maximal runs of other bytes
unfoldable pub words_from : Bytes → Bytes → List Bytes
words_from [] [] = []
words_from [] (c ∷ cur) = (c ∷ cur) ∷ []
words_from (b ∷ bs) [] = words_from bs (if is_ascii_whitespace b then [] else b ∷ [])
words_from (b ∷ bs) (c ∷ cur) =
    if is_ascii_whitespace b
    then (c ∷ cur) ∷ words_from bs []
    else words_from bs ((c ∷ cur) ++ b ∷ [])

unfoldable pub split_ascii_whitespace : Bytes → List Bytes
unfolding words_from
split_ascii_whitespace bs = words_from bs []

-- `char::to_digit(radix)` of an ASCII character, for a radix up to 16
unfoldable pub to_digit : ℕ → ℕ → Option ℕ
to_digit radix c =
    let d : Option ℕ =
      if leb b'0' c && leb c b'9'
      then some (c - b'0')
      else if leb b'a' c && leb c b'z'
      then some (c - b'a' + 10)
      else if leb b'A' c && leb c b'Z'
      then some (c - b'A' + 10)
      else none in
    elim d [ none ↦ none | some v ↦ if ltb v radix then some v else none ]

-- The digits of an unsigned number of which every prefix must stay below `limit`.
unfoldable pub parse_digits : ℕ → ℕ → Bytes → ℕ → Option ℕ
unfolding to_digit
parse_digits radix limit [] acc = some acc
parse_digits radix limit (c ∷ cs) acc = elim (to_digit radix c) [
  | none ↦ none
  | some d ↦
      let acc' = acc * radix + d in
      let rest = parse_digits radix limit cs acc' in if ltb acc' limit then rest else none
]

-- `from_str_radix` of an unsigned type with values below `limit`; `parse` is radix 10.
unfoldable pub from_str_radix : ℕ → ℕ → Bytes → Option ℕ
unfolding parse_digits
from_str_radix radix limit [] = none
from_str_radix radix limit (c ∷ []) = parse_digits radix limit (c ∷ []) 0
from_str_radix radix limit (c ∷ d ∷ cs) =
    if c == b'+'
    then parse_digits radix limit (d ∷ cs) 0
    else parse_digits radix limit (c ∷ d ∷ cs) 0

-- `str::parse::<i32>`
unfoldable pub parse_i32 : Bytes → Option ℤ
unfolding from_str_radix
parse_i32 [] = none
parse_i32 (c ∷ []) = elim (from_str_radix 10 (2 ^ 31) (c ∷ [])) [
  | none ↦ none
  | some n ↦ some (pos n)
]
parse_i32 (c ∷ d ∷ cs) =
    if c == b'-'
    then elim (parse_digits 10 (2 ^ 31 + 1) (d ∷ cs) 0) [
      | none ↦ none
      | some n ↦ some (if n == 0 then pos 0 else negsuc (n - 1))
    ]
    else elim (from_str_radix 10 (2 ^ 31) (c ∷ d ∷ cs)) [ none ↦ none | some n ↦ some (pos n) ]

-- `format!("{n}")` of a number of at most 20 digits, which holds every u64
unfoldable pub print_digits : ℕ → ℕ → Bytes
print_digits zero n = []
print_digits (suc f) n =
    let front = print_digits f (n / 10) in
    if ltb n 10 then (b'0' + n) ∷ [] else front ++ (b'0' + n % 10) ∷ []

unfoldable pub print_ℕ : ℕ → Bytes
unfolding print_digits
print_ℕ n = print_digits 20 n

unfoldable pub print_ℤ : ℤ → Bytes
unfolding print_ℕ
print_ℤ (pos n) = print_ℕ n
print_ℤ (negsuc n) = b'-' ∷ print_ℕ (suc n)
