-- ===== src/Process/Text/Lines.antt =====
-- Lines and words of printable text, as pid_fd.rs reads them.
use pve_lxc_syscalld.Base.{
  ◌==◌, ℕ, zero, suc, ◌≤◌, ◌<◌, ◌≡◌, refl, sym, ap, ◌∙◌, append_assoc, append-nil, Bytes, [], ◌∷◌,
  ◌++◌, All, replicate, none, ok, true, false, arith,
}
use pve_lxc_syscalld.Process.Text.{
  utf8_lead, is_utf8, split_lines, trim_cr, text_line, is_ascii_whitespace, words_from,
}

abbrev pub IsPrintable : ℕ → Type 0
IsPrintable b = (32 ≤ b) × (b < 127)

-- Printable and no blank.
abbrev pub IsGraphic : ℕ → Type 0
IsGraphic b = (32 < b) × (b < 127)

split_lines-from :
    (line rest cur : Bytes)
    → All IsPrintable line
    → split_lines (line ++ 10 ∷ rest) cur none ≡ ok (cur ++ line) ∷ split_lines rest [] none
unfolding split_lines
split_lines-from [] rest cur h = ap (λ t. ok t ∷ split_lines rest [] none) (sym (append-nil cur))
split_lines-from (b ∷ line) rest cur (hb, h) =
    let e : (b == 10) ≡ false = ground arith in
    rw e (
      split_lines-from line rest (cur ++ b ∷ []) h
      ∙ ap (λ t. ok t ∷ split_lines rest [] none) (append_assoc cur (b ∷ []) line))

-- A line ends at its newline.
pub split_lines-append :
    (line rest : Bytes)
    → All IsPrintable line
    → split_lines (line ++ 10 ∷ rest) [] none ≡ ok line ∷ split_lines rest [] none
split_lines-append line rest h = split_lines-from line rest [] h

is_utf8_printable : (line : Bytes) → All IsPrintable line → is_utf8 line ≡ true
unfolding is_utf8 utf8_lead
is_utf8_printable [] h = refl
is_utf8_printable (b ∷ line) (hb, h) = ground (arith, is_utf8_printable line h)

trim_cr_printable : (line : Bytes) → All IsPrintable line → trim_cr line ≡ line
unfolding trim_cr
trim_cr_printable [] h = refl
trim_cr_printable (b ∷ []) h = ground arith
trim_cr_printable (b ∷ c ∷ line) (hb, h) = ap (λ t. b ∷ t) (trim_cr_printable (c ∷ line) h)

pub text_line_printable : (line : Bytes) → All IsPrintable line → text_line (ok line) ≡ ok line
unfolding text_line
text_line_printable line h = rw (is_utf8_printable line h, trim_cr_printable line h) refl

pub words_from-blanks :
    (n : ℕ) (rest : Bytes) → words_from (replicate n 32 ++ rest) [] ≡ words_from rest []
unfolding words_from
words_from-blanks zero rest = refl
words_from-blanks (suc n) rest = words_from-blanks n rest

graphic : (b : ℕ) → IsGraphic b → is_ascii_whitespace b ≡ false
graphic b h = ground arith

word_from :
    (w rest cur : Bytes) (c : ℕ)
    → All IsGraphic w
    → words_from (w ++ 32 ∷ rest) (c ∷ cur) ≡ (c ∷ (cur ++ w)) ∷ words_from rest []
unfolding words_from
word_from [] rest cur c h = ap (λ t. (c ∷ t) ∷ words_from rest []) (sym (append-nil cur))
word_from (b ∷ w) rest cur c (hb, h) = rw (graphic b hb) (
    word_from w rest (cur ++ b ∷ []) c h
    ∙ ap (λ t. (c ∷ t) ∷ words_from rest []) (append_assoc cur (b ∷ []) w))

word_end :
    (w cur : Bytes) (c : ℕ) → All IsGraphic w → words_from w (c ∷ cur) ≡ (c ∷ (cur ++ w)) ∷ []
unfolding words_from
word_end [] cur c h = ap (λ t. (c ∷ t) ∷ []) (sym (append-nil cur))
word_end (b ∷ w) cur c (hb, h) =
    rw (graphic b hb)
      (word_end w (cur ++ b ∷ []) c h ∙ ap (λ t. (c ∷ t) ∷ []) (append_assoc cur (b ∷ []) w))

-- A word ends at a blank or at the end.
pub words_from-append :
    (c : ℕ) (w rest : Bytes)
    → All IsGraphic (c ∷ w)
    → words_from ((c ∷ w) ++ 32 ∷ rest) [] ≡ (c ∷ w) ∷ words_from rest []
unfolding words_from
words_from-append c w rest (hc, h) = ground (arith, word_from w rest [] c h)

pub words_from_end :
    (c : ℕ) (w : Bytes) → All IsGraphic (c ∷ w) → words_from (c ∷ w) [] ≡ (c ∷ w) ∷ []
unfolding words_from
words_from_end c w (hc, h) = ground (arith, word_end w [] c h)
