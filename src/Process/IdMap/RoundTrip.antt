-- ===== src/Process/IdMap/RoundTrip.antt =====
-- The two directions of an id map.
use pve_lxc_syscalld.Base.{
  ℕ, ◌+◌, ◌^◌, ◌≤◌, ◌<◌, ◌≡◌, ◌⊎◌, inl, inr, ◌↔◌, some, [], ◌∷◌, All, arith,
}
use pve_lxc_syscalld.Process.IdMap.{IdMapEntry, IdMap, map_into, map_from}

-- What a map file can hold: three u32.
pub record IsEntry (e : IdMapEntry) : Type 0 where
  pub ns_fits : e.ns < 2 ^ 32
  pub host_fits : e.host < 2 ^ 32
  pub range_fits : e.range < 2 ^ 32

-- Neither the ids inside the namespace nor those on the host overlap, as the kernel demands of a map.
abbrev pub Apart : IdMapEntry → IdMapEntry → Type 0
Apart d e =
    ((d.ns + d.range ≤ e.ns) ⊎ (e.ns + e.range ≤ d.ns))
    × ((d.host + d.range ≤ e.host) ⊎ (e.host + e.range ≤ d.host))

abbrev pub IsMap : IdMap → Type 0
IsMap [] = Unit
IsMap (e ∷ es) = IsEntry e × All (Apart e) es × IsMap es

-- An id is in the range that an entry maps, inside the namespace or on the host.
abbrev pub InNs : ℕ → IdMapEntry → Type 0
InNs id e = (e.ns ≤ id) × (id < e.ns + e.range)

abbrev pub InHost : ℕ → IdMapEntry → Type 0
InHost id e = (e.host ≤ id) × (id < e.host + e.range)

-- Some entry maps the one id to the other.
abbrev pub MapsBy : ℕ → ℕ → IdMap → Type 0
MapsBy ns host [] = ⊥
MapsBy ns host (e ∷ es) =
    (InNs ns e × InHost host e × (ns + e.host ≡ host + e.ns)) ⊎ MapsBy ns host es

-- In a map whose entries are apart, an id that a later entry maps is in no range before it.
later-Apart :
    (e : IdMapEntry) (es : IdMap) (ns host : ℕ)
    → All (Apart e) es
    → MapsBy ns host es
    → ¬ InNs ns e × ¬ InHost host e
later-Apart e [] ns host a m = absurd m
later-Apart e (d ∷ es) ns host (a, as') (inl m) = ground arith
later-Apart e (d ∷ es) ns host (a, as') (inr m) = later-Apart e es ns host as' m

from_sound : (m : IdMap) (ns host : ℕ) → IsMap m → map_from m ns ≡ some host → MapsBy ns host m
unfolding map_from
from_sound [] ns host w h = cc
from_sound (e ∷ es) ns host w h = ground (arith, from_sound es ns host w.2)

from_complete : (m : IdMap) (ns host : ℕ) → IsMap m → MapsBy ns host m → map_from m ns ≡ some host
unfolding map_from
from_complete [] ns host w h = absurd h
from_complete (e ∷ es) ns host w (inl h) = ground arith
from_complete (e ∷ es) ns host w (inr h) =
    ground (arith, from_complete es ns host w.2 h, later-Apart e es ns host w.1 h)

into_sound : (m : IdMap) (ns host : ℕ) → IsMap m → map_into m host ≡ some ns → MapsBy ns host m
unfolding map_into
into_sound [] ns host w h = cc
into_sound (e ∷ es) ns host w h = ground (arith, into_sound es ns host w.2)

into_complete : (m : IdMap) (ns host : ℕ) → IsMap m → MapsBy ns host m → map_into m host ≡ some ns
unfolding map_into
into_complete [] ns host w h = absurd h
into_complete (e ∷ es) ns host w (inl h) = ground arith
into_complete (e ∷ es) ns host w (inr h) =
    ground (arith, into_complete es ns host w.2 h, later-Apart e es ns host w.1 h)

-- On a map as the kernel accepts it, `map_from` takes an id of the namespace to an id of the host
-- exactly when some entry maps the one to the other, and `map_into` takes that one back exactly then.
pub map_iff :
    (m : IdMap) (ns host : ℕ)
    → IsMap m
    → ((map_from m ns ≡ some host) ↔ MapsBy ns host m)
      × ((map_into m host ≡ some ns) ↔ MapsBy ns host m)
map_iff m ns host w = (
  (from_sound m ns host w, from_complete m ns host w),
  (into_sound m ns host w, into_complete m ns host w),
)

-- No sum wraps, and what is mapped to fits 33 bits.
pub map_from-lt :
    (m : IdMap) (ns host : ℕ)
    → IsMap m
    → map_from m ns ≡ some host
    → (ns < 2 ^ 33) × (host < 2 ^ 33)
map_from-lt m ns host w h = bound m w (from_sound m ns host w h)
  where
    bound : (m : IdMap) → IsMap m → MapsBy ns host m → (ns < 2 ^ 33) × (host < 2 ^ 33)
    bound [] w h = absurd h
    bound (e ∷ es) w (inl h) = ground arith
    bound (e ∷ es) w (inr h) = bound es w.2 h
