-- ===== src/Base/Results.antt =====
-- The outcome of a Rust function: a value, an error, a panic that unwinds the task, or a loop that
-- has not ended within the rounds that the environment allows it.
use mathlib.Core.Option.{Option, none, some}
use mathlib.Core.Bool.{Bool, true, false}
use mathlib.Core.Path.{◌≡◌, refl}
use pve_lxc_syscalld.Base.Int.{ℤ}

-- The kinds of `io::ErrorKind` that the program makes or looks at.
pub data ErrorKind : Type 0 where
  not_found unexpected_eof write_zero invalid_data kind_other : ErrorKind

-- `anyhow::Error`, as far as `Client::handle_syscall` tells errors apart: `nix::Error`, an
-- `io::Error` with `raw_os_error()`, one without, and any other message.
pub data Error : Type 0 where
  nix : ℤ → Error
  os : ℤ → Error
  io_kind : ErrorKind → Error
  message : Error

-- `io_format_err!`
abbrev pub io_format_err : Error
io_format_err = io_kind kind_other

pub data Result {ℓ} (A : Type ℓ) : Type ℓ where
  ok : A → Result A
  err : Error → Result A
  panic : Result A
  hang : Result A

abbrev pub is_hang {ℓ} : {A : Type ℓ} → Result A → Bool
is_hang (ok a) = false
is_hang (err e) = false
is_hang panic = false
is_hang hang = true

infixl 5 ◌>>=◌
abbrev pub ◌>>=◌ {ℓ κ} : {A : Type ℓ} {B : Type κ} → Result A → (A → Result B) → Result B
ok a >>= f = f a
err e >>= f = err e
panic >>= f = panic
hang >>= f = hang

-- `o.ok_or_else(|| e)`
abbrev pub or_err {ℓ} : {A : Type ℓ} → Option A → Error → Result A
or_err (some a) e = ok a
or_err none e = err e

-- `o.unwrap()`
abbrev pub unwrap {ℓ} : {A : Type ℓ} → Option A → Result A
unwrap (some a) = ok a
unwrap none = panic

-- `r.unwrap()`, on a result
abbrev pub expect_ok {ℓ} : {A : Type ℓ} → Result A → Result A
expect_ok (ok a) = ok a
expect_ok (err e) = panic
expect_ok panic = panic
expect_ok hang = hang

-- `Ok(f(r?))`
abbrev pub map_ok {ℓ κ} : {A : Type ℓ} {B : Type κ} → (A → B) → Result A → Result B
map_ok f (ok a) = ok (f a)
map_ok f (err e) = err e
map_ok f panic = panic
map_ok f hang = hang

-- Code that succeeds has succeeded in both parts.
pub bind_is_ok {ℓ κ} :
    {A : Type ℓ} {B : Type κ} (r : Result A) (f : A → Result B) {b : B}
    → (r >>= f) ≡ ok b
    → (a : A) × (r ≡ ok a) × (f a ≡ ok b)
bind_is_ok (ok a) f e = (a, refl, e)
bind_is_ok (err y) f e = cc
bind_is_ok panic f e = cc
bind_is_ok hang f e = cc
