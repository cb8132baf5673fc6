-- ===== src/Daemon.antt =====
-- src/main.rs: the arguments, the listening socket, and a task for each client. The address of a path is
-- the `nix` crate's `UnixAddr::new`, and a parameter. Threads and what is printed are not modelled. A
-- client's task runs on its own, as Client has it.
pub mod Arguments
pub mod Serving
use pve_lxc_syscalld.Base.{
  ℕ, zero, suc, ℤ, pos, negsuc, minus_one, eq_ℤ, is_negative, neg_i32, Bytes, codes, List, [], ◌∷◌,
  Bool, true, false, if◌then◌else◌, Option, none, some, Result, ok, err, panic, hang, message, os,
  unwrap,
}
use pve_lxc_syscalld.Libc.{enoent}
use pve_lxc_syscalld.Kernel.{
  Action, ◌>>=◌, ◌>>◌, lift, pure, throw, call, attempt, c_result, remove_file, spawn, sd_notify,
}
use pve_lxc_syscalld.Io.SeqPacket.{bind_listener, accept}
use pve_lxc_syscalld.Daemon.Arguments.{Parsed, usage, run, parse_args}

-- `std::fs::remove_file` and the `match` on its outcome
unfoldable pub remove_previous : Bytes → Action (Unit {0})
unfolding c_result
remove_previous path = do
  r ← call (remove_file path)
  if eq_ℤ r.res minus_one then (if eq_ℤ r.errno enoent then pure tt else throw message) else pure tt

-- `.map_err(|e| format_err!(…))`
abbrev pub as_message {ℓ} : {A : Type ℓ} → Result A → Result A
as_message (err e) = err message
as_message other = other

-- An error of systemd's is the negated errno.
unfoldable pub notify_systemd : Action (Unit {0})
notify_systemd = do
  r ← call (sd_notify (codes "READY=1\n"))
  if is_negative r.res then throw (os (neg_i32 r.res)) else pure tt

-- The loop of `do_main`, for a number of clients.
unfoldable pub accept_loop : ℕ → Action (Unit {0})
unfolding accept
accept_loop zero = lift hang
accept_loop (suc n) = do client ← accept; call (spawn client); accept_loop n

module _ (unix_addr : Bytes → Option Bytes) where
  unfoldable pub do_main : Bool → Bytes → Action (Unit {0})
  unfolding remove_previous bind_listener notify_systemd accept_loop
  do_main use_sd_notify socket_path = do
    remove_previous socket_path
    address ← lift (unwrap (unix_addr socket_path))
    bound ← attempt (bind_listener address)
    lift (as_message bound)
    if use_sd_notify then notify_systemd else pure tt
    λ k. accept_loop k.rounds k

  -- The exit status. A panic ends the process, too.
  unfoldable pub start : List Bytes → Action ℤ
  unfolding parse_args do_main
  start args = do
    parsed ← lift (parse_args args)
    elim parsed [
      | usage status out ↦ pure status
      | run use_sd_notify path ↦ exit_status (do_main use_sd_notify path)
    ]
    where
      exit_status : Action (Unit {0}) → Action ℤ
      exit_status m = do
        outcome ← attempt m
        elim outcome [
          | ok _ ↦ pure (pos 0)
          | err e ↦ pure (pos 1)
          | panic ↦ lift panic
          | hang ↦ lift hang
        ]
