-- ===== src/Syscall.antt =====
-- src/syscall.rs: which system calls the daemon handles, the status it answers with, and strings read
-- from the caller's memory.
pub mod Table
pub mod CString
use pve_lxc_syscalld.Base.{
  ℕ, zero, suc, ℤ, pos, negsuc, minus_one, eq_ℤ, Bytes, List, [], ◌∷◌, length, take, leb, ◌==◌,
  if◌then◌else◌, Option, some, none, Result, ok, err, nix, unwrap,
}
use pve_lxc_syscalld.Libc.{einval}
use pve_lxc_syscalld.Kernel.{
  Action, ◌>>=◌, ◌>>◌, lift, pure, throw, c_try, c_result, pread, Call, Reply,
}
use pve_lxc_syscalld.LxcSeccomp.{ProxyMessageBuffer, mem_fd_of}

abbrev pub audit_arch_x86_64 : ℕ
audit_arch_x86_64 = 0xc000003e

abbrev pub audit_arch_i386 : ℕ
audit_arch_i386 = 0x40000003

pub data SyscallStatus : Type 0 where
  done : ℤ → SyscallStatus
  failed : ℤ → SyscallStatus

pub data Syscall : Type 0 where
  mknod mknodat quotactl : Syscall

pub record SyscallArch : Type 0 where
  pub arch : ℕ
  pub mknod_nr : ℤ
  pub mknodat_nr : ℤ
  pub quotactl_nr : ℤ

unfoldable pub syscall_table : List SyscallArch
syscall_table =
    record {
      arch = audit_arch_x86_64;
      mknod_nr = pos 133;
      mknodat_nr = pos 259;
      quotactl_nr = pos 179;
    }
    ∷ record {
      arch = audit_arch_i386;
      mknod_nr = pos 14;
      mknodat_nr = pos 297;
      quotactl_nr = pos 131;
    }
    ∷ []

-- The loop over the table.
unfoldable pub search_table : List SyscallArch → ℕ → ℤ → Option Syscall
search_table [] arch nr = none
search_table (sc ∷ scs) arch nr =
    let rest = search_table scs arch nr in
    if sc.arch == arch
    then if eq_ℤ nr sc.mknod_nr
      then some mknod
      else if eq_ℤ nr sc.mknodat_nr
      then some mknodat
      else if eq_ℤ nr sc.quotactl_nr
      then some quotactl
      else rest
    else rest

unfoldable pub translate_syscall : ℕ → ℤ → Option Syscall
unfolding search_table syscall_table
translate_syscall arch nr = if eq_ℤ nr minus_one then none else search_table syscall_table arch nr

-- `read_at` of at most `len` bytes: those that were read.
unfoldable pub read_at : ℤ → ℕ → ℕ → Action Bytes
unfolding c_result
read_at fd len offset = do r ← c_try (pread fd len offset); pure (take len (r.out))

-- `strnlen`: the bytes before the first 0, or all of them
unfoldable pub strnlen : Bytes → ℕ
strnlen [] = 0
strnlen (b ∷ bs) = if b == 0 then 0 else suc (strnlen bs)

-- `CString::new` refuses a string with a 0 in it.
unfoldable pub c_string : Bytes → Option Bytes
c_string [] = some []
c_string (b ∷ bs) =
    if b == 0 then none else elim (c_string bs) [ none ↦ none | some s ↦ some (b ∷ s) ]

-- What `get_c_string` makes of the bytes that it got.
unfoldable pub terminated : Bytes → Result Bytes
unfolding strnlen c_string
terminated got =
    let len = strnlen got in
    if leb (length got) len then err (nix einval) else unwrap (c_string (take len got))

unfoldable pub get_c_string : ProxyMessageBuffer → ℕ → Action Bytes
unfolding read_at terminated mem_fd_of
get_c_string msg offset = do
  fd ← lift (mem_fd_of msg)
  got ← read_at fd 4096 offset
  lift (terminated got)

-- `sc_libc_try!`: -1 makes the whole function return a status with the current `errno`.
abbrev pub sc_libc_try : Call → (Reply → Action SyscallStatus) → Action SyscallStatus
sc_libc_try c next k h =
    let r = k.reply h c in
    if eq_ℤ r.res minus_one then (ok (failed (r.errno)), c ∷ h) else next r k (c ∷ h)

-- `Errno::X.into()`, as a status
abbrev pub refuse : ℤ → Action SyscallStatus
refuse errno = pure (failed errno)
