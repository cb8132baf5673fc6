-- ===== src/Process/Status/MapFile.antt =====
-- The id map files of /proc, which `get_uid_gid_map` of src/process/pid_fd.rs reads.
use pve_lxc_syscalld.Base.{
  ℕ, zero, suc, ◌<◌, ◌^◌, ◌≡◌, ◌≢◌, refl, ap, ◌∙◌, append_assoc, Bytes, List, [], ◌∷◌, ◌++◌, All,
  All-append, replicate, some, none, ok, arith,
}
use pve_lxc_syscalld.Process.IdMap.{IdMap, IdMapEntry}
use pve_lxc_syscalld.Process.IdMap.RoundTrip.{IsEntry}
use pve_lxc_syscalld.Process.Text.{print_ℕ, split_lines, split_ascii_whitespace, words_from}
use pve_lxc_syscalld.Process.Text.Numbers.{
  IsDigit, print_ℕ-IsDigit, print_ℕ-ne-nil, from_str_radix-print_ℕ,
}
use pve_lxc_syscalld.Process.Text.Lines.{
  IsPrintable, IsGraphic, split_lines-append, text_line_printable, words_from-blanks,
  words_from-append, words_from_end,
}
use pve_lxc_syscalld.Process.Status.{check_uid_gid, map_entry, map_lines}

-- A line as the kernel prints it: three numbers, padded with blanks, and a blank between them.
pub record Line : Type 0 where
  pub entry : IdMapEntry
  pub pad_ns : ℕ
  pub pad_host : ℕ
  pub pad_range : ℕ

abbrev pub field : ℕ → ℕ → Bytes
field pad n = replicate pad 32 ++ print_ℕ n

abbrev pub line_text : Line → Bytes
line_text l =
    field l.pad_ns l.entry.ns
    ++ 32 ∷ (field l.pad_host l.entry.host ++ 32 ∷ field l.pad_range l.entry.range)

abbrev pub map_text : List Line → Bytes
map_text [] = []
map_text (l ∷ ls) = line_text l ++ 10 ∷ map_text ls

abbrev pub entries : List Line → IdMap
entries [] = []
entries (l ∷ ls) = l.entry ∷ entries ls

digits-IsPrintable : (bs : Bytes) → All IsDigit bs → All IsPrintable bs
digits-IsPrintable [] h = tt
digits-IsPrintable (b ∷ bs) ((p, q), h) = ((omega arith, omega arith), digits-IsPrintable bs h)

digits-IsGraphic : (bs : Bytes) → All IsDigit bs → All IsGraphic bs
digits-IsGraphic [] h = tt
digits-IsGraphic (b ∷ bs) ((p, q), h) = ((omega arith, omega arith), digits-IsGraphic bs h)

blanks-IsPrintable : (n : ℕ) → All IsPrintable (replicate n 32)
blanks-IsPrintable zero = tt
blanks-IsPrintable (suc n) = ((omega arith, omega arith), blanks-IsPrintable n)

field-IsPrintable : (pad n : ℕ) → All IsPrintable (field pad n)
field-IsPrintable pad n =
    All-append IsPrintable (replicate pad 32) (print_ℕ n) (blanks-IsPrintable pad)
      (digits-IsPrintable (print_ℕ n) (print_ℕ-IsDigit n))

line_text-IsPrintable : (l : Line) → All IsPrintable (line_text l)
line_text-IsPrintable l =
    All-append IsPrintable (field l.pad_ns l.entry.ns) _ (field-IsPrintable l.pad_ns l.entry.ns) (
      (omega arith, omega arith),
      All-append IsPrintable (field l.pad_host l.entry.host) _
          (field-IsPrintable l.pad_host l.entry.host)
          ((omega arith, omega arith), field-IsPrintable l.pad_range l.entry.range),
    )

-- A padded word is followed by a blank or by the end.
word_then :
    (bs rest : Bytes)
    → bs ≢ []
    → All IsDigit bs
    → words_from (bs ++ 32 ∷ rest) [] ≡ bs ∷ words_from rest []
word_then [] rest p h = absurd (p refl)
word_then (c ∷ w) rest p h = words_from-append c w rest (digits-IsGraphic (c ∷ w) h)

word_last : (bs : Bytes) → bs ≢ [] → All IsDigit bs → words_from bs [] ≡ bs ∷ []
word_last [] p h = absurd (p refl)
word_last (c ∷ w) p h = words_from_end c w (digits-IsGraphic (c ∷ w) h)

field_then :
    (pad n : ℕ) (rest : Bytes)
    → words_from (field pad n ++ 32 ∷ rest) [] ≡ print_ℕ n ∷ words_from rest []
field_then pad n rest =
    ap (λ t. words_from t []) (append_assoc (replicate pad 32) (print_ℕ n) (32 ∷ rest))
    ∙ (words_from-blanks pad (print_ℕ n ++ 32 ∷ rest)
        ∙ word_then (print_ℕ n) rest (print_ℕ-ne-nil n) (print_ℕ-IsDigit n))

field_last : (pad n : ℕ) → words_from (field pad n) [] ≡ print_ℕ n ∷ []
field_last pad n =
    words_from-blanks pad (print_ℕ n) ∙ word_last (print_ℕ n) (print_ℕ-ne-nil n) (print_ℕ-IsDigit n)

line_words :
    (l : Line)
    → split_ascii_whitespace (line_text l)
      ≡ print_ℕ l.entry.ns ∷ print_ℕ l.entry.host ∷ print_ℕ l.entry.range ∷ []
unfolding split_ascii_whitespace
line_words l =
    field_then l.pad_ns l.entry.ns _
    ∙ ap (λ t. print_ℕ l.entry.ns ∷ t)
        (field_then l.pad_host l.entry.host _
          ∙ ap (λ t. print_ℕ l.entry.host ∷ t) (field_last l.pad_range l.entry.range))

check_uid_gid-print_ℕ : (n : ℕ) → n < 2 ^ 32 → check_uid_gid (some (print_ℕ n)) ≡ ok n
unfolding check_uid_gid
check_uid_gid-print_ℕ n h = rw (from_str_radix-print_ℕ n (2 ^ 32) h (omega arith)) refl

map_entry_read :
    (e : IdMapEntry)
    → IsEntry e
    → map_entry (print_ℕ e.ns ∷ print_ℕ e.host ∷ print_ℕ e.range ∷ []) ≡ ok e
unfolding map_entry
map_entry_read e w =
    rw
      (
        check_uid_gid-print_ℕ e.ns w.ns_fits,
        check_uid_gid-print_ℕ e.host w.host_fits,
        check_uid_gid-print_ℕ e.range w.range_fits,
      )
      refl

-- The map file of a user namespace, as the kernel prints it, is read as the map: each line with its three
-- 32-bit numbers, in order, however they are padded with blanks.
pub map_lines-map_text :
    (ls : List Line)
    → All IsEntry (entries ls)
    → map_lines (split_lines (map_text ls) [] none) ≡ ok (entries ls)
unfolding map_lines split_lines
map_lines-map_text [] h = refl
map_lines-map_text (l ∷ ls) (w, h) =
    rw (split_lines-append (line_text l) (map_text ls) (line_text-IsPrintable l)) (
      rw (text_line_printable (line_text l) (line_text-IsPrintable l))
        (rw (line_words l) (rw (map_entry_read l.entry w) (rw (map_lines-map_text ls h) refl))))
