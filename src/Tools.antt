-- ===== src/Tools.antt =====
-- src/tools.rs and src/poll_fn.rs: helpers for descriptors, memory and futures.
pub mod Flags
pub mod PollFn
use pve_lxc_syscalld.Base.{
  ℕ, ◌+◌, ◌-◌, ◌/◌, ◌%◌, ◌^◌, ℤ, as_u32, Bytes, Bool, ◌==◌, ltb, if◌then◌else◌, Option, Result, ok,
  panic, unwrap,
}
use pve_lxc_syscalld.Kernel.{Action, ◌>>=◌, lift, pure, nix_try, get_status_flags, set_status_flags}

-- `OFlag::O_NONBLOCK`
abbrev pub o_nonblock : ℕ
o_nonblock = 2 ^ 11

-- `flags.set(OFlag::O_NONBLOCK, on)`
unfoldable pub with_nonblock : Bool → ℕ → ℕ
with_nonblock on flags =
    let rest = if flags / 2 ^ 11 % 2 == 1 then flags - o_nonblock else flags in
    if on then rest + o_nonblock else rest

-- `OFlag::from_bits(bits).unwrap()`: `none` stands for flags that the crate does not know.
abbrev pub known_flags : ℕ → Action ℕ
known_flags bits k = lift (unwrap (k.flags_from_bits bits)) k

unfoldable pub set_fd_nonblocking : Bool → Action ℤ
unfolding with_nonblock
set_fd_nonblocking on = do
  got ← nix_try get_status_flags
  flags ← known_flags (as_u32 got.res)
  r ← nix_try (set_status_flags (with_nonblock on flags))
  pure r.res

-- `vec::uninitialized(len)`, on memory as the allocator gives it
unfoldable pub uninitialized : (ℕ → Bytes) → ℕ → Result Bytes
uninitialized alloc len = if ltb len (2 ^ 63) then ok (alloc len) else panic
