-- ===== src/Frame/Returns.antt =====
-- Pure code of the program comes to an outcome: the accessors of src/lxcseccomp.rs, and small parts of others.
use pve_lxc_syscalld.Base.{
  ℕ, ℤ, ◌≡◌, refl, arith, Bytes, List, [], ◌∷◌, ◌++◌, ◌==◌, Option, none, some, Result, ok, err,
  panic, hang, Error, signed32, le_value, is_hang, false, true, Bool, or_err, unwrap, map_ok,
  expect_ok, ◌>>=◌, if◌then◌else◌, All,
}
use pve_lxc_syscalld.AppArmor.{label_of}
use pve_lxc_syscalld.Process.IdMap.{IdMap}
use pve_lxc_syscalld.Syscall.{terminated}
use pve_lxc_syscalld.Fork.{Packet, status_of}
use pve_lxc_syscalld.Io.Cmsg
use pve_lxc_syscalld.Io.Cmsg.{ControlMessage}
use pve_lxc_syscalld.LxcSeccomp.{
  set_len, fds_of, exactly_two, message_fds, two_fds, ProxyMessageBuffer, pid_fd_of, mem_fd_of,
  from_raw_fd,
}
use pve_lxc_syscalld.LxcSeccomp.Args.{
  arg, narrow, arg_uint, arg_mode_t, arg_dev_t, arg_int, arg_caddr_t,
}
use pve_lxc_syscalld.SysQuotactl.{translate_next}

module _ {ℓ} {A : Type ℓ} where
  pub or_err_returns : (o : Option A) (e : Error) → is_hang (or_err o e) ≡ false
  or_err_returns none e = refl
  or_err_returns (some a) e = refl

  pub unwrap_returns : (o : Option A) → is_hang (unwrap o) ≡ false
  unwrap_returns none = refl
  unwrap_returns (some a) = refl

  pub expect_ok_returns : (r : Result A) → is_hang r ≡ false → is_hang (expect_ok r) ≡ false
  expect_ok_returns (ok a) e = refl
  expect_ok_returns (err x) e = refl
  expect_ok_returns panic e = refl
  expect_ok_returns hang e = e

  pub if_returns :
      (t : Bool) (r s : Result A)
      → is_hang r ≡ false
      → is_hang s ≡ false
      → is_hang (if t then r else s) ≡ false
  if_returns true r s p q = p
  if_returns false r s p q = q

module _ {ℓ κ} {A : Type ℓ} {B : Type κ} where
  pub bind_returns :
      (r : Result A) (f : A → Result B)
      → is_hang r ≡ false
      → ((a : A) → is_hang (f a) ≡ false)
      → is_hang (r >>= f) ≡ false
  bind_returns (ok a) f e p = p a
  bind_returns (err x) f e p = refl
  bind_returns panic f e p = refl
  bind_returns hang f e p = cc

  pub map_ok_returns : (f : A → B) (r : Result A) → is_hang r ≡ false → is_hang (map_ok f r) ≡ false
  map_ok_returns f (ok a) e = refl
  map_ok_returns f (err x) e = refl
  map_ok_returns f panic e = refl
  map_ok_returns f hang e = e

pub ruleset pure_steps =
    (bind_returns, map_ok_returns, if_returns, or_err_returns, unwrap_returns, refl)

pub arg_returns : (msg : ProxyMessageBuffer) (i : ℕ) → is_hang (arg msg i) ≡ false
unfolding arg
arg_returns msg i = search pure_steps

narrow_returns : (r : Result ℕ) → is_hang r ≡ false → is_hang (narrow r) ≡ false
unfolding narrow
narrow_returns (ok x) e = search pure_steps
narrow_returns (err x) e = refl
narrow_returns panic e = refl
narrow_returns hang e = e

arg_uint_returns : (msg : ProxyMessageBuffer) (i : ℕ) → is_hang (arg_uint msg i) ≡ false
unfolding arg_uint
arg_uint_returns msg i = narrow_returns _ (arg_returns msg i)

pub arg_mode_t_returns : (msg : ProxyMessageBuffer) (i : ℕ) → is_hang (arg_mode_t msg i) ≡ false
unfolding arg_mode_t
arg_mode_t_returns msg i = narrow_returns _ (arg_returns msg i)

pub arg_dev_t_returns : (msg : ProxyMessageBuffer) (i : ℕ) → is_hang (arg_dev_t msg i) ≡ false
unfolding arg_dev_t
arg_dev_t_returns msg i = arg_returns msg i

pub arg_int_returns : (msg : ProxyMessageBuffer) (i : ℕ) → is_hang (arg_int msg i) ≡ false
unfolding arg_int
arg_int_returns msg i = search (pure_steps, arg_uint_returns)

pub arg_caddr_t_returns : (msg : ProxyMessageBuffer) (i : ℕ) → is_hang (arg_caddr_t msg i) ≡ false
unfolding arg_caddr_t
arg_caddr_t_returns msg i = arg_returns msg i

pub pid_fd_of_returns : (msg : ProxyMessageBuffer) → is_hang (pid_fd_of msg) ≡ false
unfolding pid_fd_of
pid_fd_of_returns msg = search pure_steps

pub mem_fd_of_returns : (msg : ProxyMessageBuffer) → is_hang (mem_fd_of msg) ≡ false
unfolding mem_fd_of
mem_fd_of_returns msg = search pure_steps

pub from_raw_fd_returns : (fd : ℤ) → is_hang (from_raw_fd fd) ≡ false
unfolding from_raw_fd
from_raw_fd_returns fd = search pure_steps

pub terminated_returns : (got : Bytes) → is_hang (terminated got) ≡ false
unfolding terminated
terminated_returns got = search pure_steps

pub status_of_returns : (p : Packet) → is_hang (status_of p) ≡ false
unfolding status_of
status_of_returns p = search pure_steps

pub translate_next_returns :
    (m : Option IdMap) (content : Bytes) → is_hang (translate_next m content) ≡ false
unfolding translate_next
translate_next_returns none content = refl
translate_next_returns (some m) content = ground arith

next_returns : (buf : Bytes) → is_hang (Cmsg.next buf) ≡ false
unfolding Cmsg.next Cmsg.slice
next_returns buf = ground arith

fds_of_returns : (payload : Bytes) → is_hang (fds_of payload) ≡ false
unfolding fds_of
fds_of_returns [] = refl
fds_of_returns (a ∷ []) = refl
fds_of_returns (a ∷ b ∷ []) = refl
fds_of_returns (a ∷ b ∷ c ∷ []) = refl
fds_of_returns (a ∷ b ∷ c ∷ e ∷ bs) =
    let fd = signed32 (le_value (a ∷ b ∷ c ∷ e ∷ [])) in
    bind_returns (from_raw_fd fd) _ (from_raw_fd_returns fd)
      λ first. bind_returns _ _ (fds_of_returns bs) λ rest. refl

exactly_two_returns : (fds : List ℤ) → is_hang (exactly_two fds) ≡ false
unfolding exactly_two
exactly_two_returns [] = refl
exactly_two_returns (p ∷ []) = refl
exactly_two_returns (p ∷ m ∷ []) = refl
exactly_two_returns (p ∷ m ∷ x ∷ fds) = refl

message_fds_returns : (c : ControlMessage) → is_hang (message_fds c) ≡ false
unfolding message_fds
message_fds_returns c = search (pure_steps, fds_of_returns, exactly_two_returns)

pub two_fds_returns : (control : Bytes) → is_hang (two_fds control) ≡ false
unfolding two_fds
two_fds_returns control = search (pure_steps, next_returns, message_fds_returns)

pub set_len_returns : (b : ProxyMessageBuffer) (n : ℕ) → is_hang (set_len b n) ≡ false
unfolding set_len
set_len_returns b n = search pure_steps

pub label_of_returns : (r : Result Bytes) → is_hang r ≡ false → is_hang (label_of r) ≡ false
unfolding label_of
label_of_returns r e = ground arith

pub ruleset pure_parts = (
  or_err_returns, unwrap_returns, arg_returns, arg_mode_t_returns, arg_dev_t_returns,
  arg_int_returns, arg_caddr_t_returns, pid_fd_of_returns, mem_fd_of_returns, from_raw_fd_returns,
  terminated_returns, status_of_returns, translate_next_returns,
)
