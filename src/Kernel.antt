-- ===== src/Kernel.antt =====
-- The boundary to the operating system. A kernel replies by any function from the calls made so far and the
-- next call to a reply, so that a theorem about every kernel covers every environment, other
-- processes included. An action is code that makes calls: it returns an outcome and the history,
-- newest call first. The macros of macros.rs that turn a reply into a `Result` stand here too.
pub mod Laws
use pve_lxc_syscalld.Base.{
  ℕ, ℤ, minus_one, eq_ℤ, Bytes, List, [], ◌∷◌, Option, Error, io_format_err, Result, ok, err, panic,
  hang, os, nix, Bool, true, false, if◌then◌else◌,
}

-- The calls that the program makes of the kernel, libc and the async runtime, with what they pass.
pub data Call : Type 0 where
  getpid : Call
  open_path : Bytes → ℕ → Call
  openat : ℤ → Bytes → ℕ → ℕ → Call
  -- a file read up to its end; if the reply is -1, `out` holds what came before the error
  read_file : ℤ → Call
  pread : ℤ → ℕ → ℕ → Call
  pwrite : ℤ → Bytes → ℕ → Call
  write_all : ℤ → Bytes → Call
  -- `std::fs::write`
  write_path : Bytes → Bytes → Call
  setns : ℤ → ℕ → Call
  fchdir : ℤ → Call
  chroot : Bytes → Call
  chdir : Bytes → Call
  umask : ℕ → Call
  get_securebits : Call
  set_securebits : ℕ → Call
  setegid : ℕ → Call
  setfsgid : ℕ → Call
  seteuid : ℕ → Call
  setfsuid : ℕ → Call
  -- version, pid, and (effective, permitted, inheritable) of each half
  capset : ℕ → ℤ → List (ℕ × ℕ × ℕ) → Call
  mknodat : ℤ → Bytes → ℕ → ℕ → Call
  -- the last argument is the buffer behind `addr`, if it is not null
  quotactl : ℤ → Option Bytes → ℤ → Option Bytes → Call
  pipe : Call
  fork : Call
  -- the child's calls on its end of the pipe, and its exit
  write_pipe : Bytes → Call
  exit : ℤ → Call
  -- the parent's: the pipe handed to the runtime, read from, the child killed or waited for
  register_pipe : Call
  read_pipe : ℕ → Call
  kill : ℤ → ℕ → Call
  waitpid : ℤ → Call
  -- on the client's socket
  -- the runtime's waits until a socket can be read or written, and what is done then
  readable : Call
  writable : Call
  recvmsg : Call
  sendmsg : Bytes → Call
  shutdown : Call
  -- for the listening socket: the path it stands at, its address, and what it accepts
  remove_file : Bytes → Call
  socket : Call
  bind : Bytes → Call
  listen : ℕ → Call
  accept4 : Call
  -- a socket handed to the runtime, and a client's task started on it
  register_socket : Call
  spawn : ℤ → Call
  sd_notify : Bytes → Call
  -- on a pipe that the runtime polls: for at most this many bytes, and of these bytes
  read : ℕ → Call
  write : Bytes → Call
  -- `fcntl` for the status flags of a descriptor
  get_status_flags : Call
  close : ℤ → Call
  set_status_flags : ℕ → Call
  -- `SECCOMP_GET_NOTIF_SIZES`
  seccomp_sizes : Call

-- What a call returns, `errno` after it, the bytes that it wrote into the caller's buffers (as many
-- as a reading call says that it read), the control data of a message, and a child's exit status.
pub record Reply : Type 0 where
  pub res : ℤ
  pub errno : ℤ
  pub out : Bytes
  pub control : Bytes
  pub status : ℤ

abbrev pub History : Type 0
History = List Call

-- `rounds` bounds the loops that go on until the kernel replies otherwise: a wait for a child or for
-- a socket, the loop over a client's messages, and the one over the clients. `flags_from_bits` is the nix
-- crate's `OFlag::from_bits`, which has no value for flags that it does not know.
pub record Kernel : Type 0 where
  pub reply : History → Call → Reply
  pub rounds : ℕ
  pub flags_from_bits : ℕ → Option ℕ

abbrev pub Action {ℓ} : Type ℓ → Type ℓ
Action A = Kernel → History → Result A × History

-- named apart from the bind of `Result`
abbrev pub then_run {ℓ κ} :
    {A : Type ℓ} {B : Type κ} → Result A × History → (A → Action B) → Kernel → Result B × History
then_run (ok a, h) f k = f a k h
then_run (err e, h) f k = (err e, h)
then_run (panic, h) f k = (panic, h)
then_run (hang, h) f k = (hang, h)

infixl 5 ◌>>=◌ ◌>>◌
abbrev pub ◌>>=◌ {ℓ κ} : {A : Type ℓ} {B : Type κ} → Action A → (A → Action B) → Action B
◌>>=◌ m f k h = then_run (m k h) f k

abbrev pub ◌>>◌ {ℓ κ} : {A : Type ℓ} {B : Type κ} → Action A → Action B → Action B
m >> n = m >>= λ _. n

module _ {ℓ} {A : Type ℓ} where
  -- pure code, with its errors and panics
  abbrev pub lift : Result A → Action A
  lift r k h = (r, h)

  abbrev pub pure : A → Action A
  pure a k h = (ok a, h)

  abbrev pub throw : Error → Action A
  throw e k h = (err e, h)

-- `io_bail!`
abbrev pub io_bail {ℓ} : {A : Type ℓ} → Action A
io_bail = throw io_format_err

abbrev pub call : Call → Action Reply
call c k h = (ok (k.reply h c), c ∷ h)

abbrev pub caught {ℓ} : {A : Type ℓ} → Result A × History → Result (Result A) × History
caught (hang, h) = (hang, h)
caught (ok a, h) = (ok (ok a), h)
caught (err e, h) = (ok (err e), h)
caught (panic, h) = (ok panic, h)

-- The outcome of an action as a value, as `match` and `catch_unwind` take it.
abbrev pub attempt {ℓ} : {A : Type ℓ} → Action A → Action (Result A)
attempt m k h = caught (m k h)

-- `c_result!`: -1 is an error with the current `errno`, all else a success
unfoldable pub c_result : Reply → Result Reply
c_result r = if eq_ℤ r.res minus_one then err (os r.errno) else ok r

-- `c_try!`
abbrev pub c_try : Call → Action Reply
c_try c k h = (c_result (k.reply h c), c ∷ h)

-- A call of the `nix` crate, whose errors are numbers.
abbrev pub nix_result : Reply → Result Reply
nix_result r = if eq_ℤ r.res minus_one then err (nix r.errno) else ok r

abbrev pub nix_try : Call → Action Reply
nix_try c k h = (nix_result (k.reply h c), c ∷ h)

-- The drop of some descriptors, one after the other; errors of `close` are ignored.
abbrev pub close_all : List ℤ → Action (Unit {0})
close_all [] = pure tt
close_all (fd ∷ fds) = call (close fd) >> close_all fds

-- The history after that.
abbrev pub dropped : List ℤ → History → History
dropped [] h = h
dropped (fd ∷ fds) h = dropped fds (close fd ∷ h)

-- What a block owns is dropped if it is left by an error or a panic.
abbrev pub left_with {ℓ} : {A : Type ℓ} → List ℤ → Result A × History → Kernel → Result A × History
left_with fds (ok a, h) k = (ok a, h)
left_with fds (err e, h) k = (close_all fds >> throw e) k h
left_with fds (panic, h) k = (close_all fds >> lift panic) k h
left_with fds (hang, h) k = (hang, h)

abbrev pub owning {ℓ} : {A : Type ℓ} → List ℤ → Action A → Action A
owning fds m k h = left_with fds (m k h) k
