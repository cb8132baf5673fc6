-- ===== src/SysQuotactl/Mapped.antt =====
-- With which id the quotas of src/sys_quotactl.rs are asked of the kernel.
use pve_lxc_syscalld.Base.{
  ℕ, ℤ, pos, negsuc, IsI32, as_i32, eq_ℤ, ◌^◌, ◌%◌, ◌≡◌, ◌≢◌, ◌∙◌, ◌⊎◌, inl, inr, refl, ap, arith,
  Bytes, Option, some, none, Result, ok, err, panic, hang, true, false, Bool, if◌then◌else◌, map_ok,
  try_i32, or_err, nix, as_u64,
}
use pve_lxc_syscalld.Libc.{erange, einval, usrquota, grpquota, size_of_dqblk}
use pve_lxc_syscalld.Kernel.{
  Action, Kernel, History, ◌>>=◌, ◌>>◌, lift, pure, quotactl as sys_quotactl,
}
use pve_lxc_syscalld.Kernel.Laws.{bind_ok}
use pve_lxc_syscalld.LxcSeccomp.{ProxyMessageBuffer, pid_fd_of}
use pve_lxc_syscalld.LxcSeccomp.Args.{arg_int, arg_uint, arg_caddr_t, arg_struct_by_ptr}
use pve_lxc_syscalld.Process.IdMap.{IdMap, map_from}
use pve_lxc_syscalld.Process.IdMap.RoundTrip.{IsMap, MapsBy, map_iff}
use pve_lxc_syscalld.Process.PidFd.{PidFd, get_uid_map, get_gid_map}
use pve_lxc_syscalld.Process.UserCaps.{UserCaps, user_caps}
use pve_lxc_syscalld.Syscall.{SyscallStatus, failed}
use pve_lxc_syscalld.SysMknod.{become}
use pve_lxc_syscalld.Fork.{forking_syscall}
use pve_lxc_syscalld.SysQuotactl.{
  map_id, uid_gid_arg, run_as_caller, q_getquota, q_setquota, q_getnextquota,
}
use pve_lxc_syscalld.SysQuotactl.AsCaller.{Body, fetches, submits, fetches_next}
use pve_lxc_syscalld.SysQuotactl.Child.{call_of}
use pve_lxc_syscalld.SysQuotactl.Ids.{map_id_negative}

-- The map that a kind of quota goes by.
abbrev pub map_by : Bool → PidFd → Action IdMap
map_by true p = get_uid_map p
map_by false p = get_gid_map p

abbrev pub map_of : ℤ → PidFd → Action IdMap
map_of kind = map_by (eq_ℤ kind usrquota)

abbrev pub IsKind : ℤ → Type 0
IsKind kind = (eq_ℤ kind usrquota ≡ true) ⊎ (eq_ℤ kind grpquota ≡ true)

-- The maps that the kernel shows are as it accepts them.
abbrev pub ShowsMaps : ℤ → Kernel → Type 0
ShowsMaps kind k =
    (p : PidFd) (h h' : History) (m : IdMap) → map_of kind p k h ≡ (ok m, h') → IsMap m

-- The id is the one on the host of the id in the message, by the map of the process of the message.
pub record IsMapped (msg : ProxyMessageBuffer) (kind : ℤ) (k : Kernel) (host : ℕ) : Type 0 where
  pub caller : PidFd
  pub is_caller : msg.pid_fd ≡ some caller
  pub idmap : IdMap
  pub before : History
  pub after : History
  pub is_read : map_of kind caller k before ≡ (ok idmap, after)
  pub id : ℕ
  pub is_asked : arg_int msg 2 ≡ ok (pos id)
  pub maps_by : MapsBy id host idmap

-- The argument is cut to 32 bits.
as_i32-IsI32 : (x : ℕ) → IsI32 (as_i32 x)
as_i32-IsI32 x = ground arith

arg_int-IsI32 : (msg : ProxyMessageBuffer) (i : ℕ) (id : ℤ) → arg_int msg i ≡ ok id → IsI32 id
unfolding arg_int
arg_int-IsI32 msg i id e = by_value (arg_uint msg i) e
  where
    by_value : (r : Result ℕ) → map_ok as_i32 r ≡ ok id → IsI32 id
    by_value (ok x) f = let q : as_i32 x ≡ id = ground (arith, f) in rw (← q) (as_i32-IsI32 x)
    by_value (err y) f = cc
    by_value panic f = cc
    by_value hang f = cc

-- An id that is mapped was not negative.
map_id_maps :
    (m : IdMap) (id id' : ℤ) (im : Option IdMap) (k : Kernel) (h h' : History)
    → IsMap m
    → IsI32 id
    → map_id m id k h ≡ (ok (id', im), h')
    → (ns : ℕ) × (host : ℕ) × (id ≡ pos ns) × (id' ≡ pos host) × MapsBy ns host m
unfolding map_id
map_id_maps m (negsuc n) id' im k h h' w lt e = let f = map_id_negative m n k h w lt in cc
map_id_maps m (pos n) id' im k h h' w lt e =
    let (host, h1, e1, f1) =
      bind_ok (lift (or_err (map_from m (as_u64 (pos n))) (nix erange))) _ k h e in
    let (there, h2, e2, f2) = bind_ok (lift (or_err (try_i32 host) (nix erange))) _ k h1 f1 in
    let same : n % 2 ^ 64 ≡ n = omega arith in
    let wide : map_from m (n % 2 ^ 64) ≡ some host = ground (arith, e1) in
    let found : map_from m n ≡ some host = rw same at wide in
    (n, host, refl, ground (arith, e2, f2), (map_iff m n host w).0.0 found)

chosen :
    (msg : ProxyMessageBuffer) (id : ℤ) (t u : Bool) (k : Kernel) (h : History)
    (x : Result (ℤ × Option IdMap) × History)
    → (t ≡ true) ⊎ (u ≡ true)
    → (if t
          then (lift (pid_fd_of msg) >>= λ p. get_uid_map p >>= λ m. map_id m id)
          else if u
          then (lift (pid_fd_of msg) >>= λ p. get_gid_map p >>= λ m. map_id m id)
          else pure (id, none))
        k h
      ≡ x
    → (lift (pid_fd_of msg) >>= λ p. map_by t p >>= λ m. map_id m id) k h ≡ x
chosen msg id true u k h x w e = e
chosen msg id false true k h x w e = e
chosen msg id false false k h x (inl w) e = cc
chosen msg id false false k h x (inr w) e = cc

module _ (msg : ProxyMessageBuffer) (kind : ℤ) (k : Kernel) (shows : ShowsMaps kind k) where
  -- What a caller's map makes of the id.
  caller_maps :
      (id id' : ℤ) (im : Option IdMap) (h h' : History)
      → arg_int msg 2 ≡ ok id
      → (lift (pid_fd_of msg) >>= λ p. map_of kind p >>= λ m. map_id m id) k h ≡ (ok (id', im), h')
      → (host : ℕ) × (id' ≡ pos host) × IsMapped msg kind k host
  unfolding pid_fd_of
  caller_maps id id' im h h' asked e =
      let (p, h1, e1, f1) = bind_ok (lift (pid_fd_of msg)) _ k h e in
      let (m, h2, e2, f2) = bind_ok (map_of kind p) _ k h1 f1 in
      let (ns, host, is_pos, is_host, by) =
        map_id_maps m id id' im k h2 h' (shows p h1 h2 m e2) (arg_int-IsI32 msg 2 id asked) f2 in
      (
        host,
        is_host,
        record {
          caller = p;
          is_caller = ground (arith, e1);
          idmap = m;
          before = h1;
          after = h2;
          is_read = e2;
          id = ns;
          is_asked = asked ∙ ap ok is_pos;
          maps_by = by;
        },
      )

  uid_gid_arg_maps :
      (id' : ℤ) (im : Option IdMap) (h h' : History)
      → IsKind kind
      → uid_gid_arg msg 2 kind k h ≡ (ok (id', im), h')
      → (host : ℕ) × (id' ≡ pos host) × IsMapped msg kind k host
  unfolding uid_gid_arg
  uid_gid_arg_maps id' im h h' is_kind e =
      let (id, h1, e1, f1) = bind_ok (lift (arg_int msg 2)) _ k h e in
      caller_maps id id' im h1 h' (ap (λ x. x.0) e1)
        (chosen msg id (eq_ℤ kind usrquota) (eq_ℤ kind grpquota) k h1 (ok (id', im), h') is_kind f1)

module _ (msg : ProxyMessageBuffer) (kind : ℤ) (k : Kernel) where
  -- The status of such a quota is that of a child whose call has the mapped id.
  abbrev pub AsksMapped : ℤ → SyscallStatus → History → Type 0
  AsksMapped cmd s h' =
      (host : ℕ) × IsMapped msg kind k host
      × (body : Action SyscallStatus) × (b : Body msg cmd body) × (name : Bytes) × (content : Option
          Bytes)
      × (call_of msg cmd b ≡ sys_quotactl cmd (some name) (pos host) content)
      × (caps : UserCaps) × (h1 : History) × (forking_syscall (become caps >> body) k h1
          ≡ (ok s, h'))

  asked :
      (cmd id : ℤ) (host : ℕ) (name : Bytes) (content : Option Bytes) {body : Action SyscallStatus}
      (b : Body msg cmd body) (h h' : History) (s : SyscallStatus)
      → id ≡ pos host
      → IsMapped msg kind k host
      → call_of msg cmd b ≡ sys_quotactl cmd (some name) id content
      → run_as_caller msg body k h ≡ (ok s, h')
      → AsksMapped cmd s h'
  unfolding run_as_caller
  asked cmd id host name content {body} b h h' s q w c e =
      let (caller, h1, e1, f1) = bind_ok (lift (pid_fd_of msg)) _ k h e in
      let (caps, h2, e2, f2) = bind_ok (user_caps caller) _ k h1 f1 in
      (
        host,
        w,
        body,
        b,
        name,
        content,
        c ∙ ap (λ i. sys_quotactl cmd (some name) i content) q,
        caps,
        h2,
        f2,
      )

-- The three commands that ask for the quota of an id.
pub data ById : Type 0 where
  of_getquota of_setquota of_getnextquota : ById

abbrev pub handler : ById → ProxyMessageBuffer → ℤ → Option Bytes → ℤ → Action SyscallStatus
handler of_getquota = q_getquota
handler of_setquota = q_setquota
handler of_getnextquota = q_getnextquota

-- If Q_GETQUOTA, Q_SETQUOTA or Q_GETNEXTQUOTA of a user or a group ends with a status other than EINVAL, the
-- status is that of a child whose one call has the id on the host that the id of the message is mapped to,
-- by the uid map or the gid map of the process of the message. The maps have to be as the kernel accepts
-- them.
pub quotas_ask_mapped :
    (which : ById) (msg : ProxyMessageBuffer) (cmd kind : ℤ) (special : Option Bytes) (k : Kernel)
    (h h' : History) (s : SyscallStatus)
    → ShowsMaps kind k
    → IsKind kind
    → s ≢ failed einval
    → handler which msg cmd special kind k h ≡ (ok s, h')
    → AsksMapped msg kind k cmd s h'
unfolding q_getquota q_setquota q_getnextquota
quotas_ask_mapped of_getquota msg cmd kind none k h h' s shows w x e =
    absurd (x (ground (arith, e)))
quotas_ask_mapped of_setquota msg cmd kind none k h h' s shows w x e =
    absurd (x (ground (arith, e)))
quotas_ask_mapped of_getnextquota msg cmd kind none k h h' s shows w x e =
    absurd (x (ground (arith, e)))
quotas_ask_mapped of_getquota msg cmd kind (some name) k h h' s shows w x e =
    let ((id, im), h1, e1, f1) = bind_ok (uid_gid_arg msg 2 kind) _ k h e in
    let (host, q, v) = uid_gid_arg_maps msg kind k shows id im h h1 w e1 in
    let (addr, h2, e2, f2) = bind_ok (lift (arg_caddr_t msg 3)) _ k h1 f1 in
    asked msg kind k cmd id host name _ (fetches (some name) id addr size_of_dqblk) h2 h' s q v refl
      f2
quotas_ask_mapped of_setquota msg cmd kind (some name) k h h' s shows w x e =
    let ((id, im), h1, e1, f1) = bind_ok (uid_gid_arg msg 2 kind) _ k h e in
    let (host, q, v) = uid_gid_arg_maps msg kind k shows id im h h1 w e1 in
    let (content, h2, e2, f2) = bind_ok (arg_struct_by_ptr size_of_dqblk msg 3) _ k h1 f1 in
    asked msg kind k cmd id host name _ (submits (some name) (some content) id) h2 h' s q v refl f2
quotas_ask_mapped of_getnextquota msg cmd kind (some name) k h h' s shows w x e =
    let ((id, im), h1, e1, f1) = bind_ok (uid_gid_arg msg 2 kind) _ k h e in
    let (host, q, v) = uid_gid_arg_maps msg kind k shows id im h h1 w e1 in
    let (addr, h2, e2, f2) = bind_ok (lift (arg_caddr_t msg 3)) _ k h1 f1 in
    asked msg kind k cmd id host name _ (fetches_next (some name) id im addr) h2 h' s q v refl f2
