-- ===== src/Process/CGroups/Entries.antt =====
-- What `CGroups` knows once `get_cgroups` of src/process/pid_fd.rs has read a file.
use pve_lxc_syscalld.Base.{
  ℕ, ◌≤◌, length, ◌++◌, ◌==◌, All, All-append, ap, sym, ◌∙◌, append-nil, append_assoc, ◌≡◌, refl,
  arith, Bytes, List, [], ◌∷◌, true, false, if◌then◌else◌, Option, some, none, Result, ok,
}
use pve_lxc_syscalld.Process.Text.{is_utf8}
use pve_lxc_syscalld.Process.CGroups.{
  CGroups, empty, insert_all, get, cut, split_three, split_commas, read_line, read_lines,
  or_default,
}
use pve_lxc_syscalld.Process.CGroups.Lookup.{is_named, lookup_default, lookup-insert_all}

abbrev or_else : Option Bytes → Option Bytes → Option Bytes
or_else none o = o
or_else (some p) o = some p

-- A line of the file as the kernel writes it, `num:names:path`, where the names of a v1 hierarchy stand
-- between commas, and the second version has none.
pub record Entry : Type 0 where
  pub num : Bytes
  pub names : List Bytes
  pub path : Bytes

abbrev pub joined : Bytes → List Bytes → Bytes
joined n [] = n
joined n (m ∷ ns) = n ++ b',' ∷ joined m ns

abbrev pub names_text : List Bytes → Bytes
names_text [] = []
names_text (n ∷ ns) = joined n ns

abbrev pub text : Entry → Bytes
text e = e.num ++ b':' ∷ (names_text e.names ++ b':' ∷ e.path)

-- The byte does not occur.
abbrev pub Lacks : ℕ → Bytes → Type 0
Lacks b bs = All (λ c. c == b ≡ false) bs

pub record IsEntry (e : Entry) : Type 0 where
  pub num_fits : Lacks b':' e.num
  pub names_fit : All (λ n. Lacks b':' n × Lacks b',' n × (1 ≤ length n)) e.names
  pub is_text : is_utf8 (names_text e.names) ≡ true

-- The path that a line gives to a controller it names, and that of a line without names.
abbrev pub path_for : Bytes → Entry → Option Bytes
path_for x e = if is_named x e.names then some e.path else none

abbrev pub base_of : Entry → Option Bytes
base_of e = elim e.names [ [] ↦ some e.path | n ∷ ns ↦ none ]

abbrev pub latest : (Entry → Option Bytes) → List Entry → Option Bytes
latest f [] = none
latest f (e ∷ es) = or_else (latest f es) (f e)

cut-append :
    (xs rest cur : Bytes) → Lacks b':' xs → cut (xs ++ b':' ∷ rest) cur ≡ some (cur ++ xs, rest)
unfolding cut
cut-append [] rest cur w = ap (λ c. some (c, rest)) (sym (append-nil cur))
cut-append (x ∷ xs) rest cur (e, w) =
    rw e (
      cut-append xs rest (cur ++ x ∷ []) w
      ∙ ap (λ c. some (c, rest)) (append_assoc cur (x ∷ []) xs))

splits :
    (num names path : Bytes)
    → Lacks b':' num
    → Lacks b':' names
    → split_three (num ++ b':' ∷ (names ++ b':' ∷ path)) ≡ some (num, names, path)
unfolding split_three
splits num names path v w =
    rw (cut-append num (names ++ b':' ∷ path) [] v, split_three)
      (rw (cut-append names path [] w) refl)

commas_last : (n cur : Bytes) → Lacks b',' n → split_commas n cur ≡ (cur ++ n) ∷ []
unfolding split_commas
commas_last [] cur w = ap (λ c. c ∷ []) (sym (append-nil cur))
commas_last (x ∷ xs) cur (e, w) =
    rw e (commas_last xs (cur ++ x ∷ []) w ∙ ap (λ c. c ∷ []) (append_assoc cur (x ∷ []) xs))

commas_next :
    (n rest cur : Bytes)
    → Lacks b',' n
    → split_commas (n ++ b',' ∷ rest) cur ≡ (cur ++ n) ∷ split_commas rest []
unfolding split_commas
commas_next [] rest cur w = ap (λ c. c ∷ split_commas rest []) (sym (append-nil cur))
commas_next (x ∷ xs) rest cur (e, w) = rw e (
    commas_next xs rest (cur ++ x ∷ []) w
    ∙ ap (λ c. c ∷ split_commas rest []) (append_assoc cur (x ∷ []) xs))

abbrev AreNames : List Bytes → Type 0
AreNames ns = All (λ n. Lacks b':' n × Lacks b',' n × (1 ≤ length n)) ns

split_commas-joined :
    (n : Bytes) (ns : List Bytes) → AreNames (n ∷ ns) → split_commas (joined n ns) [] ≡ n ∷ ns
split_commas-joined n [] ((_, w, _), _) = commas_last n [] w
split_commas-joined n (m ∷ ns) ((_, w, _), v) =
    commas_next n (joined m ns) [] w ∙ ap (λ l. n ∷ l) (split_commas-joined m ns v)

names_text-Lacks : (ns : List Bytes) → AreNames ns → Lacks b':' (names_text ns)
names_text-Lacks [] w = tt
names_text-Lacks (n ∷ []) w = w.0.0
names_text-Lacks (n ∷ m ∷ ns) w =
    All-append (λ c. c == b':' ≡ false) n (b',' ∷ joined m ns) w.0.0
      (refl, names_text-Lacks (m ∷ ns) w.1)

-- What a line makes of what is known.
abbrev applied : CGroups → Entry → CGroups
applied c e = elim e.names [
  | [] ↦ record c { v2 = some e.path }
  | n ∷ ns ↦ record c { v1 = some (insert_all (n ∷ ns) e.path (or_default c.v1)) }
]

read_line-text :
    (c : CGroups) (num path : Bytes) (ns : List Bytes)
    → IsEntry (record { num = num; names = ns; path = path })
    → read_line c (num ++ b':' ∷ (names_text ns ++ b':' ∷ path))
      ≡ ok (applied c (record { num = num; names = ns; path = path }))
unfolding read_line
read_line-text c num path [] w =
    rw (splits num [] path w.num_fits tt, read_line) (rw w.is_text refl)
read_line-text c num path ([] ∷ ns) w = absurd (omega (arith, w.names_fit.0.2))
read_line-text c num path ((b ∷ bs) ∷ []) w =
    let lacks = names_text-Lacks ((b ∷ bs) ∷ []) w.names_fit in
    rw (splits num (b ∷ bs) path w.num_fits lacks, read_line)
      (rw (w.is_text, split_commas-joined (b ∷ bs) [] w.names_fit) refl)
read_line-text c num path ((b ∷ bs) ∷ m ∷ ns) w =
    let lacks = names_text-Lacks ((b ∷ bs) ∷ m ∷ ns) w.names_fit in
    rw (splits num (joined (b ∷ bs) (m ∷ ns)) path w.num_fits lacks, read_line)
      (rw (w.is_text, split_commas-joined (b ∷ bs) (m ∷ ns) w.names_fit) refl)

applied-get :
    (x : Bytes) (c : CGroups) (e : Entry)
    → (get (applied c e) x ≡ or_else (path_for x e) (get c x))
      × ((applied c e).v2 ≡ or_else (base_of e) c.v2)
unfolding get
applied-get x c e = by_names e.names
  where
    by_names :
        (ns : List Bytes)
        → (get (applied c (record e { names = ns })) x
            ≡ or_else (path_for x (record e { names = ns })) (get c x))
          × ((applied c (record e { names = ns })).v2
              ≡ or_else (base_of (record e { names = ns })) c.v2)
    by_names [] = (refl, refl)
    by_names (n ∷ ns) =
        ground (arith, lookup_default x c, lookup-insert_all x (n ∷ ns) e.path (or_default c.v1))

abbrev pub lines_of : List Entry → List (Result Bytes)
lines_of [] = []
lines_of (e ∷ es) = ok (text e) ∷ lines_of es

read_lines-lines_of :
    (x : Bytes) (c : CGroups) (es : List Entry)
    → All IsEntry es
    → (c' : CGroups) × (read_lines c (lines_of es) ≡ ok c')
      × (get c' x ≡ or_else (latest (path_for x) es) (get c x))
      × (c'.v2 ≡ or_else (latest base_of es) c.v2)
unfolding read_lines
read_lines-lines_of x c [] w = (c, refl, refl, refl)
read_lines-lines_of x c (e ∷ es) (v, w) =
    let (c', q, f, g) = read_lines-lines_of x (applied c e) es w in
    let (f1, g1) = applied-get x c e in
    (
      c',
      rw (read_line-text c e.num e.path e.names v) q,
      ground (arith, f, f1),
      ground (arith, g, g1),
    )

-- A file of lines `num:names:path` is read without an error. The path of a controller is then that of the
-- last line that has it among its names, which stand between commas, and the path of the second version is
-- that of the last line without a name.
pub get-read_lines :
    (x : Bytes) (es : List Entry)
    → All IsEntry es
    → (c : CGroups) × (read_lines empty (lines_of es) ≡ ok c)
      × (get c x ≡ latest (path_for x) es)
      × (c.v2 ≡ latest base_of es)
unfolding empty get
get-read_lines x es w =
    let (c, q, f, g) = read_lines-lines_of x empty es w in
    (c, q, ground (arith, f), ground (arith, g))
