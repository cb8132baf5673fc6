-- ===== src/Process/CGroups.antt =====
-- src/process/cgroups.rs, and `PidFd::get_cgroups` of pid_fd.rs. The hash map of v1 controllers is
-- an association list in which an insertion replaces.
pub mod Lookup
pub mod Entries
use pve_lxc_syscalld.Base.{
  Bool, true, false, Bytes, bytes_eq, List, [], ◌∷◌, ◌++◌, Option, some, none, Result, ok, err,
  message, ◌>>=◌, ◌==◌, if◌then◌else◌,
}
use pve_lxc_syscalld.Process.Text.{is_utf8}

abbrev pub Controllers : Type 0
Controllers = List (Bytes × Bytes)

pub record CGroups : Type 0 where
  pub v1 : Option Controllers
  pub v2 : Option Bytes

unfoldable pub empty : CGroups
empty = record { v1 = none; v2 = none }

unfoldable pub lookup : Bytes → Controllers → Option Bytes
lookup name [] = none
lookup name ((n, path) ∷ m) = if bytes_eq name n then some path else lookup name m

unfoldable pub insert : Bytes → Bytes → Controllers → Controllers
insert name path [] = (name, path) ∷ []
insert name path ((n, p) ∷ m) =
    if bytes_eq name n then (n, path) ∷ m else (n, p) ∷ insert name path m

unfoldable pub get : CGroups → Bytes → Option Bytes
unfolding lookup
get c name = elim c.v1 [ none ↦ none | some m ↦ lookup name m ]

unfoldable pub has_v1 : CGroups → Bool
has_v1 c = elim c.v1 [ none ↦ false | some m ↦ true ]

-- What stands before the first `sep` and after it, if there is one.
unfoldable pub cut : Bytes → Bytes → Option (Bytes × Bytes)
cut [] cur = none
cut (b ∷ bs) cur = if b == b':' then some (cur, bs) else cut bs (cur ++ b ∷ [])

-- `splitn(3, b':')`, if it gives three parts
unfoldable pub split_three : Bytes → Option (Bytes × Bytes × Bytes)
unfolding cut
split_three line = elim (cut line []) [
  | none ↦ none
  | some (num, rest) ↦ elim (cut rest []) [
    | none ↦ none
    | some (name, path) ↦ some (num, name, path)
  ]
]

-- `name.split(',')`
unfoldable pub split_commas : Bytes → Bytes → List Bytes
split_commas [] cur = cur ∷ []
split_commas (b ∷ bs) cur =
    if b == b',' then cur ∷ split_commas bs [] else split_commas bs (cur ++ b ∷ [])

unfoldable pub insert_all : List Bytes → Bytes → Controllers → Controllers
unfolding insert
insert_all [] path m = m
insert_all (n ∷ ns) path m = insert_all ns path (insert n path m)

-- `v1.get_or_insert_with(Default::default)`
unfoldable pub or_default : Option Controllers → Controllers
or_default none = []
or_default (some m) = m

-- One round of the loop over the lines.
unfoldable pub read_line : CGroups → Bytes → Result CGroups
unfolding split_three split_commas insert_all or_default
read_line c line = elim (split_three line) [
  | none ↦ err message
  | some (num, name, path) ↦
      if is_utf8 name
      then elim name [
        | [] ↦ ok (record c { v2 = some path })
        | b ∷ bs ↦
            ok (record c {
              v1 = some (insert_all (split_commas (b ∷ bs) []) path (or_default c.v1));
            })
      ]
      else err message
]

unfoldable pub read_lines : CGroups → List (Result Bytes) → Result CGroups
read_lines c [] = ok c
read_lines c (item ∷ items) = do line ← item; c' ← read_line c line; read_lines c' items
