-- ===== src/Seccomp.antt =====
-- src/seccomp.rs: the structures of the kernel's seccomp notifications, with their C layout on
-- x86_64, and the query and check of the sizes that the kernel has.
pub mod Codec
pub mod Sizes
use pve_lxc_syscalld.Kernel.{Action, ◌>>=◌, ◌>>◌, lift, pure, throw, call, seccomp_sizes}
use pve_lxc_syscalld.Base.{
  eq_ℤ, os, overwrite, ℕ, zero, suc, ℤ, pos, Bytes, List, [], ◌∷◌, Bool, ◌||◌, not, ◌==◌,
  if◌then◌else◌, Result, ok, err, io_kind, kind_other, signed32, signed64, as_u32, as_u64, words,
  unwords, total, replicate,
}

pub record SeccompData : Type 0 where
  pub nr : ℤ
  pub arch : ℕ
  pub instruction_pointer : ℕ
  -- six of them
  pub args : List ℕ

pub record SeccompNotif : Type 0 where
  pub id : ℕ
  pub pid : ℕ
  pub flags : ℕ
  pub call : SeccompData

pub record SeccompNotifResp : Type 0 where
  pub id : ℕ
  pub val : ℤ
  pub error : ℤ
  pub flags : ℕ

pub record SeccompNotifSizes : Type 0 where
  pub notif : ℕ
  pub notif_resp : ℕ
  pub call : ℕ

-- The widths of the fields in memory order; none of the three structures has padding.
abbrev pub data_layout : List ℕ
data_layout = 4 ∷ 4 ∷ 8 ∷ 8 ∷ 8 ∷ 8 ∷ 8 ∷ 8 ∷ 8 ∷ []

abbrev pub notif_layout : List ℕ
notif_layout = 8 ∷ 4 ∷ 4 ∷ data_layout

abbrev pub resp_layout : List ℕ
resp_layout = 8 ∷ 8 ∷ 4 ∷ 4 ∷ []

-- `size_of` of each
abbrev pub size_of_data : ℕ
size_of_data = total data_layout

abbrev pub size_of_notif : ℕ
size_of_notif = total notif_layout

abbrev pub size_of_resp : ℕ
size_of_resp = total resp_layout

-- The i-th of some words; a structure has all of its fields.
abbrev pub field_at : List ℕ → ℕ → ℕ
field_at [] i = 0
field_at (v ∷ vs) zero = v
field_at (v ∷ vs) (suc i) = field_at vs i

abbrev pub after_words : ℕ → List ℕ → List ℕ
after_words zero vs = vs
after_words (suc n) [] = []
after_words (suc n) (v ∷ vs) = after_words n vs

abbrev pub notif_of_words : List ℕ → SeccompNotif
notif_of_words vs = record {
  id = field_at vs 0;
  pid = field_at vs 1;
  flags = field_at vs 2;
  call = record {
    nr = signed32 (field_at vs 3);
    arch = field_at vs 4;
    instruction_pointer = field_at vs 5;
    args = after_words 6 vs;
  };
}

unfoldable pub decode_notif : Bytes → SeccompNotif
decode_notif bs = notif_of_words (words notif_layout bs)

unfoldable pub encode_notif : SeccompNotif → Bytes
encode_notif n = unwords notif_layout (
    n.id
    ∷ n.pid
    ∷ n.flags
    ∷ as_u32 n.call.nr
    ∷ n.call.arch
    ∷ n.call.instruction_pointer
    ∷ n.call.args)

abbrev pub resp_of_words : List ℕ → SeccompNotifResp
resp_of_words vs = record {
  id = field_at vs 0;
  val = signed64 (field_at vs 1);
  error = signed32 (field_at vs 2);
  flags = field_at vs 3;
}

unfoldable pub decode_resp : Bytes → SeccompNotifResp
decode_resp bs = resp_of_words (words resp_layout bs)

unfoldable pub encode_resp : SeccompNotifResp → Bytes
encode_resp r = unwords resp_layout (r.id ∷ as_u64 r.val ∷ as_u32 r.error ∷ r.flags ∷ [])

unfoldable pub check : SeccompNotifSizes → Result (Unit {0})
check s =
    if not (s.notif == size_of_notif)
      || not (s.notif_resp == size_of_resp)
      || not (s.call == size_of_data)
    then err (io_kind kind_other)
    else ok tt

abbrev pub sizes_layout : List ℕ
sizes_layout = 2 ∷ 2 ∷ 2 ∷ []

unfoldable pub decode_sizes : Bytes → SeccompNotifSizes
decode_sizes bs =
    let vs = words sizes_layout bs in
    record { notif = field_at vs 0; notif_resp = field_at vs 1; call = field_at vs 2 }

-- The system call writes into a structure of zeros.
unfoldable pub get : Action SeccompNotifSizes
unfolding decode_sizes
get = do
  r ← call seccomp_sizes
  if eq_ℤ r.res (pos 0)
      then pure (decode_sizes (overwrite r.out (replicate 6 0)))
      else throw (os r.errno)

unfoldable pub get_checked : Action SeccompNotifSizes
unfolding get check
get_checked = do this ← get; lift (check this); pure this
