-- ===== src/LxcSeccomp/Args.antt =====
-- The accessors of src/lxcseccomp.rs for the arguments of the intercepted system call.
use pve_lxc_syscalld.Base.{
  ℕ, ℤ, eq_ℤ, is_negative, as_i32, as_u64, try_u32, Bytes, length, get_elem?, ◌==◌, Option, some,
  none, Result, ok, nix, os, or_err, if◌then◌else◌, map_ok,
}
use pve_lxc_syscalld.Libc.{einval, erange, at_fdcwd}
use pve_lxc_syscalld.Kernel.{Action, ◌>>=◌, lift, pure, throw, c_try, c_result, pwrite}
use pve_lxc_syscalld.LxcSeccomp.{ProxyMessageBuffer, pid_fd_of, mem_fd_of, from_raw_fd}
use pve_lxc_syscalld.Process.PidFd.{fd_cwd, fd_num}
use pve_lxc_syscalld.Syscall.{get_c_string, read_at}

unfoldable pub arg : ProxyMessageBuffer → ℕ → Result ℕ
arg msg i = or_err (get_elem? msg.seccomp_notif.call.args i) (nix erange)

-- The pointer is read first; a null pointer is no string.
unfoldable pub arg_opt_c_string : ProxyMessageBuffer → ℕ → Action (Option Bytes)
unfolding arg
arg_opt_c_string msg i = do
  offset ← lift (arg msg i)
  if offset == 0 then pure none else (get_c_string msg offset >>= λ s. pure (some s))

unfoldable pub arg_c_string : ProxyMessageBuffer → ℕ → Action Bytes
unfolding arg_opt_c_string
arg_c_string msg i = do s ← arg_opt_c_string msg i; lift (or_err s (nix einval))

-- The memory of a structure of `size` bytes behind a pointer argument.
unfoldable pub arg_struct_by_ptr : ℕ → ProxyMessageBuffer → ℕ → Action Bytes
unfolding arg read_at mem_fd_of
arg_struct_by_ptr size msg i = do
  offset ← lift (arg msg i)
  fd ← lift (mem_fd_of msg)
  got ← read_at fd size offset
  if length got == size then pure got else throw (nix einval)

unfoldable pub mem_write_struct : ProxyMessageBuffer → ℕ → Bytes → Action (Unit {0})
unfolding c_result mem_fd_of
mem_write_struct msg offset content = do
  fd ← lift (mem_fd_of msg)
  r ← c_try (pwrite fd content offset)
  if as_u64 r.res == length content then pure tt else throw (os einval)

-- `T::try_from(x?).map_err(|_| EINVAL)` for a 32-bit unsigned `T`
unfoldable pub narrow : Result ℕ → Result ℕ
narrow (ok x) = or_err (try_u32 x) (nix einval)
narrow other = other

unfoldable pub arg_uint : ProxyMessageBuffer → ℕ → Result ℕ
unfolding arg narrow
arg_uint msg i = narrow (arg msg i)

unfoldable pub arg_mode_t : ProxyMessageBuffer → ℕ → Result ℕ
unfolding arg narrow
arg_mode_t msg i = narrow (arg msg i)

unfoldable pub arg_dev_t : ProxyMessageBuffer → ℕ → Result ℕ
unfolding arg
arg_dev_t msg i = arg msg i

unfoldable pub arg_int : ProxyMessageBuffer → ℕ → Result ℤ
unfolding arg_uint
arg_int msg i = map_ok as_i32 (arg_uint msg i)

-- A pointer keeps the 64 bits, whatever it is taken for.
unfoldable pub arg_caddr_t : ProxyMessageBuffer → ℕ → Result ℕ
unfolding arg
arg_caddr_t msg i = arg msg i

unfoldable pub arg_pointer : ProxyMessageBuffer → ℕ → Result ℕ
unfolding arg
arg_pointer msg i = arg msg i

unfoldable pub arg_char_ptr : ProxyMessageBuffer → ℕ → Result ℕ
unfolding arg
arg_char_ptr msg i = arg msg i

-- Negative descriptors but `AT_FDCWD` are passed on as they are, if `from_raw_fd` takes them.
unfoldable pub arg_fd : ProxyMessageBuffer → ℕ → ℕ → Action ℤ
unfolding arg pid_fd_of from_raw_fd
arg_fd msg i flags = do
  value ← lift (arg msg i)
  let fd = as_i32 value
  if eq_ℤ fd at_fdcwd
      then (lift (pid_fd_of msg) >>= λ p. fd_cwd p)
      else if is_negative fd
      then lift (from_raw_fd fd)
      else (lift (pid_fd_of msg) >>= λ p. fd_num p fd flags)
