-- ===== src/SysQuotactl/Ids.antt =====
-- Ids in `quotactl`, between the caller's user namespace and the host.
use pve_lxc_syscalld.Base.{
  Option, ℕ, pos, negsuc, ◌%◌, ◌^◌, ◌<◌, ◌≡◌, ◌↔◌, refl, as_u64, ok, err, some, none, nix, arith,
}
use pve_lxc_syscalld.Libc.{erange}
use pve_lxc_syscalld.Kernel.{Kernel, History}
use pve_lxc_syscalld.Process.IdMap.{IdMap, map_from}
use pve_lxc_syscalld.Process.IdMap.RoundTrip.{IsMap, MapsBy, map_iff, map_from-lt}
use pve_lxc_syscalld.SysQuotactl.{map_id}

-- A negative id of 32 bits, such as a uid from 2^31 on, is refused with ERANGE, whatever valid map there
-- is.
pub map_id_negative :
    (m : IdMap) (n : ℕ) (k : Kernel) (h : History)
    → IsMap m
    → n < 2 ^ 31
    → map_id m (negsuc n) k h ≡ (err (nix erange), h)
unfolding map_id
map_id_negative m n k h w lt = rw (unmapped (map_from m (as_u64 (negsuc n))) refl)
  where
    unmapped :
        (o : Option ℕ) → map_from m (as_u64 (negsuc n)) ≡ o → map_from m (as_u64 (negsuc n)) ≡ none
    unmapped none e = e
    unmapped (some host) e = absurd (omega (arith, (map_from-lt m _ host w e).0))

-- An id that is not negative is mapped to the id on the host that the map gives it, and only to that one,
-- if it is below 2^31.
pub map_id_iff :
    (m : IdMap) (ns host : ℕ) (k : Kernel) (h : History)
    → IsMap m
    → ns < 2 ^ 31
    → (map_id m (pos ns) k h ≡ (ok (pos host, some m), h)) ↔ (MapsBy ns host m × (host < 2 ^ 31))
unfolding map_id
map_id_iff m ns host k h w lt =
    let small : ns % 2 ^ 64 ≡ ns = omega arith in rw small (ground (arith, (map_iff m ns host w).0))
