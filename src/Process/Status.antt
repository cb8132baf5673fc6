-- ===== src/Process/Status.antt =====
-- The parts of src/process/pid_fd.rs and mod.rs that read the text of /proc/<pid>/status and of the
-- id map files: `read_pid`, `__check_uid_gid`, `get_status`, `get_uid_gid_map`.
pub mod MapFile
use pve_lxc_syscalld.Base.{
  ℕ, ℤ, ◌^◌, Bytes, codes, bytes_eq, List, [], ◌∷◌, Option, some, none, Result, ok, err, io_kind,
  not_found, kind_other, ◌>>=◌, or_err, map_ok, if◌then◌else◌,
}
use pve_lxc_syscalld.Capability.{Capabilities}
use pve_lxc_syscalld.Process.Text.{text_line, split_ascii_whitespace, from_str_radix, parse_i32}
use pve_lxc_syscalld.Process.IdMap.{IdMapEntry, IdMap}

pub record Uids : Type 0 where
  pub ruid : ℕ
  pub euid : ℕ
  pub suid : ℕ
  pub fsuid : ℕ
  pub rgid : ℕ
  pub egid : ℕ
  pub sgid : ℕ
  pub fsgid : ℕ

pub record ProcStatus : Type 0 where
  pub uids : Uids
  pub capabilities : Capabilities
  pub umask : ℕ

-- `parts.next()` on the words that are left
abbrev pub next_word : List Bytes → Option Bytes
next_word [] = none
next_word (w ∷ ws) = some w

-- a number in `radix` below `limit`, from a word that must be there
unfoldable pub check_number : ℕ → ℕ → Option Bytes → Result ℕ
check_number radix limit value = do
  word ← or_err value (io_kind kind_other)
  or_err (from_str_radix radix limit word) (io_kind kind_other)

-- `__check_uid_gid`
unfoldable pub check_uid_gid : Option Bytes → Result ℕ
unfolding check_number
check_uid_gid = check_number 10 (2 ^ 32)

unfoldable pub check_u64_hex : Option Bytes → Result ℕ
unfolding check_number
check_u64_hex = check_number 16 (2 ^ 64)

unfoldable pub check_u32_oct : Option Bytes → Result ℕ
unfolding check_number
check_u32_oct = check_number 8 (2 ^ 32)

abbrev pub rest_words : List Bytes → List Bytes
rest_words [] = []
rest_words (w ∷ ws) = ws

-- the four ids of a `Uid:` or `Gid:` line
unfoldable pub four_ids : List Bytes → Result (ℕ × ℕ × ℕ × ℕ)
unfolding check_uid_gid
four_ids ws = do
  let ws1 = rest_words ws
  let ws2 = rest_words ws1
  let ws3 = rest_words ws2
  real ← check_uid_gid (next_word ws)
  effective ← check_uid_gid (next_word ws1)
  saved ← check_uid_gid (next_word ws2)
  fs ← check_uid_gid (next_word ws3)
  ok (real, effective, saved, fs)

unfoldable pub set_uids : ProcStatus → ℕ × ℕ × ℕ × ℕ → ProcStatus
set_uids s (r, e, v, f) = record s {
  uids = record (s.uids) { ruid = r; euid = e; suid = v; fsuid = f };
}

unfoldable pub set_gids : ProcStatus → ℕ × ℕ × ℕ × ℕ → ProcStatus
set_gids s (r, e, v, f) = record s {
  uids = record (s.uids) { rgid = r; egid = e; sgid = v; fsgid = f };
}

unfoldable pub set_caps : ProcStatus → Capabilities → ProcStatus
set_caps s c = record s { capabilities = c }

-- The `match` in `get_status`, on the words of a line.
unfoldable pub status_line : ProcStatus → List Bytes → Result ProcStatus
unfolding four_ids set_uids set_gids set_caps check_u64_hex check_u32_oct
status_line s [] = ok s
status_line s (w ∷ ws) =
    if bytes_eq w (codes "Uid:")
    then map_ok (set_uids s) (four_ids ws)
    else if bytes_eq w (codes "Gid:")
    then map_ok (set_gids s) (four_ids ws)
    else if bytes_eq w (codes "CapInh:")
    then map_ok (λ v. set_caps s (record (s.capabilities) { inheritable = v }))
        (check_u64_hex (next_word ws))
    else if bytes_eq w (codes "CapPrm:")
    then map_ok (λ v. set_caps s (record (s.capabilities) { permitted = v }))
        (check_u64_hex (next_word ws))
    else if bytes_eq w (codes "CapEff:")
    then map_ok (λ v. set_caps s (record (s.capabilities) { effective = v }))
        (check_u64_hex (next_word ws))
    else if bytes_eq w (codes "Umask:")
    then map_ok (λ v. record s { umask = v }) (check_u32_oct (next_word ws))
    else ok s

abbrev pub default_status : ProcStatus
default_status = record {
  uids = record {
    ruid = 0;
    euid = 0;
    suid = 0;
    fsuid = 0;
    rgid = 0;
    egid = 0;
    sgid = 0;
    fsgid = 0;
  };
  capabilities = record { inheritable = 0; permitted = 0; effective = 0 };
  umask = 0o022;
}

-- The loop of `get_status`, over what the reader delivers.
unfoldable pub status_lines : ProcStatus → List (Result Bytes) → Result ProcStatus
status_lines s [] = ok s
status_lines s (item ∷ items) = do
  line ← text_line item
  s' ← status_line s (split_ascii_whitespace line)
  status_lines s' items

unfoldable pub pid_word : Option Bytes → Result ℤ
pid_word value = do
  word ← or_err value (io_kind kind_other)
  or_err (parse_i32 word) (io_kind kind_other)

-- The `Pid:` line of `read_pid`; `none` goes on to the next line.
unfoldable pub pid_line : List Bytes → Option (Result ℤ)
unfolding pid_word
pid_line [] = none
pid_line (w ∷ ws) = if bytes_eq w (codes "Pid:") then some (pid_word (next_word ws)) else none

unfoldable pub pid_lines : List (Result Bytes) → Result ℤ
unfolding pid_line
pid_lines [] = err (io_kind not_found)
pid_lines (item ∷ items) = do
  line ← text_line item
  elim (pid_line (split_ascii_whitespace line)) [ some r ↦ r | none ↦ pid_lines items ]

-- `get_uid_gid_map`, on what the reader delivers.
unfoldable pub map_entry : List Bytes → Result IdMapEntry
unfolding check_uid_gid
map_entry ws = do
  let ws1 = rest_words ws
  ns ← check_uid_gid (next_word ws)
  host ← check_uid_gid (next_word ws1)
  range ← check_uid_gid (next_word (rest_words ws1))
  ok (record { ns = ns; host = host; range = range })

unfoldable pub map_lines : List (Result Bytes) → Result IdMap
unfolding map_entry
map_lines [] = ok []
map_lines (item ∷ items) = do
  line ← text_line item
  e ← map_entry (split_ascii_whitespace line)
  es ← map_lines items
  ok (e ∷ es)
