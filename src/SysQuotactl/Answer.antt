-- ===== src/SysQuotactl/Answer.antt =====
-- The sizes of what src/sys_quotactl.rs makes of an answer.
use pve_lxc_syscalld.Base.{
  ◌++◌, none, err, os, length-le_bytes, ◌%◌, ◌^◌, length-drop, length-take, drop, le_bytes, take,
  length-append, length-replicate, length, ℕ, ◌≡◌, arith, Bytes, replicate, overwrite, Option, some,
  ok,
}
use pve_lxc_syscalld.Kernel.{Reply}
use pve_lxc_syscalld.Libc.{erange}
use pve_lxc_syscalld.Process.IdMap.{IdMap, map_into}
use pve_lxc_syscalld.SysQuotactl.{dqb_id, set_dqb_id, translate_next, size_of_nextdqblk}

-- What came back in a buffer of zeros.
abbrev pub filled : ℕ → Reply → Bytes
filled size r = overwrite r.out (replicate size 0)

pub length-filled : (size : ℕ) (r : Reply) → length (filled size r) ≡ size
length-filled size r =
    let zeros : length (replicate {A = ℕ} size 0) ≡ size = length-replicate size 0 in
    omega (
      arith,
      zeros,
      length-append (take (length (replicate {A = ℕ} size 0)) r.out)
          (drop (length r.out) (replicate {A = ℕ} size 0)),
      length-take (length (replicate {A = ℕ} size 0)) r.out,
      length-drop (length r.out) (replicate {A = ℕ} size 0),
    )

length-set_dqb_id :
    (content : Bytes) (id : ℕ)
    → length content ≡ size_of_nextdqblk
    → length (set_dqb_id content id) ≡ size_of_nextdqblk
unfolding set_dqb_id
length-set_dqb_id content id e = omega (
  arith,
  e,
  length-append (take 72 content) (le_bytes 4 id ++ drop 76 content),
  length-append (le_bytes 4 id) (drop 76 content),
  length-take 72 content,
  length-drop 76 content,
  length-le_bytes 4 id,
)

pub length-translate_next :
    (idmap : Option IdMap) (content content' : Bytes)
    → length content ≡ size_of_nextdqblk
    → translate_next idmap content ≡ ok content'
    → length content' ≡ size_of_nextdqblk
unfolding translate_next
length-translate_next none content content' l e = ground (arith, l, e)
length-translate_next (some idmap) content content' l e = mapped (map_into idmap (dqb_id content)) e
  where
    mapped :
        (o : Option ℕ)
        → elim o [ none ↦ err (os erange) | some id ↦ ok (set_dqb_id content (id % 2 ^ 32)) ]
          ≡ ok content'
        → length content' ≡ size_of_nextdqblk
    mapped none e = absurd (ground (arith, e))
    mapped (some id) e = ground (arith, e, length-set_dqb_id content (id % 2 ^ 32) l)
