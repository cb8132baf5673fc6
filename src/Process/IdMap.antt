-- ===== src/Process/IdMap.antt =====
-- src/process/id_map.rs: the uid or gid mapping of a user namespace.
pub mod RoundTrip
use pve_lxc_syscalld.Base.{
  ℕ, ◌+◌, ◌-◌, ◌%◌, ◌^◌, ◌&&◌, Option, some, none, List, [], ◌∷◌, ltb, leb, if◌then◌else◌,
}

pub record IdMapEntry : Type 0 where
  pub ns : ℕ
  pub host : ℕ
  pub range : ℕ

abbrev pub IdMap : Type 0
IdMap = List IdMapEntry

-- Sums of u64 wrap.
abbrev pub add64 : ℕ → ℕ → ℕ
add64 a b = (a + b) % 2 ^ 64

abbrev pub sub64 : ℕ → ℕ → ℕ
sub64 a b = (a + 2 ^ 64 - b) % 2 ^ 64

unfoldable pub map_into : IdMap → ℕ → Option ℕ
map_into [] id = none
map_into (e ∷ es) id =
    if leb e.host id && ltb id (add64 e.host e.range)
    then some (sub64 (add64 e.ns id) e.host)
    else map_into es id

unfoldable pub map_from : IdMap → ℕ → Option ℕ
map_from [] id = none
map_from (e ∷ es) id =
    if leb e.ns id && ltb id (add64 e.ns e.range)
    then some (sub64 (add64 e.host id) e.ns)
    else map_from es id
