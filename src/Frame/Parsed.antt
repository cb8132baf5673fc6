-- ===== src/Frame/Parsed.antt =====
-- The parsers of src/process come to an outcome.
use pve_lxc_syscalld.Base.{
  ℕ, ℤ, ◌≡◌, refl, arith, Bytes, List, [], ◌∷◌, ◌++◌, ◌==◌, Option, none, some, Result, ok, err,
  panic, hang, Error, is_hang, false, true, Bool, if◌then◌else◌, All,
}
use pve_lxc_syscalld.Process.Text.{split_lines, text_line, split_ascii_whitespace}
use pve_lxc_syscalld.Process.Status.{
  ProcStatus, pid_lines, pid_line, pid_word, status_lines, status_line, four_ids, check_uid_gid,
  check_number, check_u64_hex, check_u32_oct, map_lines, map_entry,
}
use pve_lxc_syscalld.Process.CGroups.{CGroups, read_lines, read_line}
use pve_lxc_syscalld.Frame.Returns.{bind_returns, pure_steps}

-- What a reader delivers is a line or an error.
abbrev pub AllReturn : List (Result Bytes) → Type 0
AllReturn items = All (λ r. is_hang r ≡ false) items

if_AllReturn :
    (t : Bool) (xs ys : List (Result Bytes))
    → AllReturn xs
    → AllReturn ys
    → AllReturn (if t then xs else ys)
if_AllReturn true xs ys p q = p
if_AllReturn false xs ys p q = q

pub split_lines-AllReturn : (bs cur : Bytes) (e : Option Error) → AllReturn (split_lines bs cur e)
unfolding split_lines
split_lines-AllReturn [] [] none = tt
split_lines-AllReturn [] (c ∷ cur) none = (refl, tt)
split_lines-AllReturn [] [] (some e) = (refl, tt)
split_lines-AllReturn [] (c ∷ cur) (some e) = (refl, tt)
split_lines-AllReturn (b ∷ bs) cur e =
    if_AllReturn (b == b'\n') (ok cur ∷ split_lines bs [] e) (split_lines bs (cur ++ b ∷ []) e)
      (refl, split_lines-AllReturn bs [] e) (split_lines-AllReturn bs (cur ++ b ∷ []) e)

text_line_returns : (r : Result Bytes) → is_hang r ≡ false → is_hang (text_line r) ≡ false
unfolding text_line
text_line_returns (ok bs) e = search pure_steps
text_line_returns (err x) e = refl
text_line_returns panic e = refl
text_line_returns hang e = e

check_number_returns :
    (radix limit : ℕ) (o : Option Bytes) → is_hang (check_number radix limit o) ≡ false
unfolding check_number
check_number_returns radix limit o = search pure_steps

check_uid_gid_returns : (o : Option Bytes) → is_hang (check_uid_gid o) ≡ false
unfolding check_uid_gid
check_uid_gid_returns o = check_number_returns _ _ o

check_u64_hex_returns : (o : Option Bytes) → is_hang (check_u64_hex o) ≡ false
unfolding check_u64_hex
check_u64_hex_returns o = check_number_returns _ _ o

check_u32_oct_returns : (o : Option Bytes) → is_hang (check_u32_oct o) ≡ false
unfolding check_u32_oct
check_u32_oct_returns o = check_number_returns _ _ o

four_ids_returns : (ws : List Bytes) → is_hang (four_ids ws) ≡ false
unfolding four_ids
four_ids_returns ws = search (pure_steps, check_uid_gid_returns) depth 9

status_line_returns : (s : ProcStatus) (ws : List Bytes) → is_hang (status_line s ws) ≡ false
unfolding status_line
status_line_returns s [] = refl
status_line_returns s (w ∷ ws) =
    search (pure_steps, four_ids_returns, check_u64_hex_returns, check_u32_oct_returns) depth 12

pub status_lines_returns :
    (s : ProcStatus) (items : List (Result Bytes))
    → AllReturn items
    → is_hang (status_lines s items) ≡ false
unfolding status_lines
status_lines_returns s [] w = refl
status_lines_returns s (item ∷ items) (e, w) =
    bind_returns _ _ (text_line_returns item e)
      λ line. bind_returns _ _ (status_line_returns s _) λ s'. status_lines_returns s' items w

read_line_returns : (c : CGroups) (line : Bytes) → is_hang (read_line c line) ≡ false
unfolding read_line
read_line_returns c line = ground arith

pub read_lines_returns :
    (c : CGroups) (items : List (Result Bytes))
    → AllReturn items
    → is_hang (read_lines c items) ≡ false
unfolding read_lines
read_lines_returns c [] w = refl
read_lines_returns c (item ∷ items) (e, w) =
    bind_returns _ _ e
      λ line. bind_returns _ _ (read_line_returns c line) λ c'. read_lines_returns c' items w

map_entry_returns : (ws : List Bytes) → is_hang (map_entry ws) ≡ false
unfolding map_entry
map_entry_returns ws = search (pure_steps, check_uid_gid_returns) depth 9

pub map_lines_returns :
    (items : List (Result Bytes)) → AllReturn items → is_hang (map_lines items) ≡ false
unfolding map_lines
map_lines_returns [] w = refl
map_lines_returns (item ∷ items) (e, w) = bind_returns _ _ (text_line_returns item e) λ line.
    bind_returns _ _ (map_entry_returns _)
      λ x. bind_returns _ _ (map_lines_returns items w) λ xs. refl

pid_line_returns : (ws : List Bytes) (r : Result ℤ) → pid_line ws ≡ some r → is_hang r ≡ false
unfolding pid_line pid_word
pid_line_returns [] r e = cc
pid_line_returns (w ∷ ws) r e = ground (arith, e)

one_of :
    (o : Option (Result ℤ)) (rest : Result ℤ)
    → ((r : Result ℤ) → o ≡ some r → is_hang r ≡ false)
    → is_hang rest ≡ false
    → is_hang (elim o as (λ _. Result ℤ) [ some r ↦ r | none ↦ rest ]) ≡ false
one_of none rest p q = q
one_of (some r) rest p q = p r refl

pub pid_lines_returns :
    (items : List (Result Bytes)) → AllReturn items → is_hang (pid_lines items) ≡ false
unfolding pid_lines
pid_lines_returns [] w = refl
pid_lines_returns (item ∷ items) (e, w) = bind_returns _ _ (text_line_returns item e) λ line.
    let ws = split_ascii_whitespace line in
    one_of (pid_line ws) (pid_lines items) (pid_line_returns ws) (pid_lines_returns items w)
