-- ===== src/Io/Cmsg.antt =====
-- src/io/cmsg.rs: the control messages that come with a datagram. A usize is a u64.
pub mod Messages
use pve_lxc_syscalld.Base.{
  ℕ, ◌+◌, ◌-◌, ◌*◌, ◌/◌, ◌%◌, ◌^◌, ℤ, signed32, Bytes, length, take, drop, le_value, ◌||◌, ltb, leb,
  if◌then◌else◌, Option, some, none, Result, ok, panic, [],
}

-- `(n + 8 - 1) & !(8 - 1)`: the mask clears the three low bits. The sum wraps in a release build.
unfoldable pub align : ℕ → ℕ
align n = (n + 8 - 1) % 2 ^ 64 / 8 * 8

-- `size_of::<libc::cmsghdr>()`: a size_t and two ints
abbrev pub size_of_cmsghdr : ℕ
size_of_cmsghdr = 16

unfoldable pub space : ℕ → ℕ
unfolding align
space n = align size_of_cmsghdr + align n

-- `capacity::<T>()` for a `T` of the given size
unfoldable pub capacity : ℕ → ℕ
unfolding space
capacity size = space size

pub record ControlMessage : Type 0 where
  pub cmsg_level : ℤ
  pub cmsg_type : ℤ
  pub payload : Bytes

-- `&buf[first..last]`, which panics unless first ≤ last ≤ buf.len()
unfoldable pub slice : Bytes → ℕ → ℕ → Result Bytes
slice buf first last =
    if ltb last first || ltb (length buf) last
    then panic
    else ok (take (last - first) (drop first buf))

-- `RawCmsgIterator::next`: the message, and what is left of the buffer.
unfoldable pub next : Bytes → Result (Option (ControlMessage × Bytes))
unfolding align slice
next buf =
    if ltb (length buf) size_of_cmsghdr
    then ok none
    else let cmsg_len = le_value (take 8 buf) in
      let next_hdr = align cmsg_len in
      let rest : Bytes = if leb (length buf) next_hdr then [] else drop next_hdr buf in
      elim (slice buf size_of_cmsghdr cmsg_len) [
        | ok payload ↦ ok (
            some (
              record {
                cmsg_level = signed32 (le_value (take 4 (drop 8 buf)));
                cmsg_type = signed32 (le_value (take 4 (drop 12 buf)));
                payload = payload;
              },
              rest,
            ))
        | _ ↦ panic
      ]

-- `iter(buf)`: the iterator holds the buffer.
unfoldable pub iter : Bytes → Bytes
iter buf = buf

-- `buffer::<T>()`, on memory as the allocator gives it. `Layout::array` refuses a size beyond isize.
unfoldable pub buffer : (ℕ → Bytes) → ℕ → Result Bytes
unfolding capacity
buffer alloc size = let n = capacity size in if ltb n (2 ^ 63) then ok (alloc n) else panic
