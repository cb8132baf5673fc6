-- ===== src/Tests/Daemon.antt =====
-- The daemon at its start, and pipes.
use pve_lxc_syscalld.Base.{
  ℤ, ℕ, if◌then◌else◌, ltb, panic, take, ◌-◌, Result, ◌≡◌, ◌↔◌, refl, arith, inl, inr, pos,
  minus_one, eq_ℤ, Bytes, codes, List, [], ◌∷◌, ◌++◌, true, false, some, ok,
}
use pve_lxc_syscalld.Libc.{eagain}
use pve_lxc_syscalld.Daemon.Arguments.{usage, usage_text}
use pve_lxc_syscalld.Daemon.Arguments.Refused.{Ends, parse_args-Ends}
use pve_lxc_syscalld.Kernel.{
  Action, pure, readable, Call, Reply, Kernel, History, accept4, spawn, read, write,
}
use pve_lxc_syscalld.Daemon.{accept_loop, do_main, start}
use pve_lxc_syscalld.Daemon.Arguments.{run, parse_args}
use pve_lxc_syscalld.Daemon.Arguments.Accepted.{Starts, parse_args_iff}
use pve_lxc_syscalld.Daemon.Serving.{served, SetsUp, set_up, start_ends, do_main_serves}
use pve_lxc_syscalld.Io.Pipe.{Poll, ready, pending, ReadBuf, poll_read, poll_write}
use pve_lxc_syscalld.Io.Pipe.Polls.{poll_read_fills, polls_pending_iff}
use pve_lxc_syscalld.Tests.Replies.{plain, willing}

abbrev program : Bytes
program = codes "pve-lxc-syscalld"

abbrev socket_path : Bytes
socket_path = codes "/run/pve/lxc-syscalld.sock"

abbrev command : List Bytes
command = codes "--system" ∷ socket_path ∷ []

parse_args_iff_example :
    (parse_args (program ∷ command) ≡ ok (run true socket_path)) ↔ Starts command true socket_path
parse_args_iff_example = parse_args_iff program command true socket_path

-- After the first client nobody connects for one attempt; then a client is gone before it is accepted, with
-- `ECONNABORTED`.
abbrev failing : ℤ → Reply
failing e = record { res = minus_one; errno = e; out = []; control = []; status = pos 0 }

abbrev abort_later : Call → History → Reply
abort_later accept4 (readable ∷ spawn fd ∷ h) = failing (pos 11)
abort_later accept4 (readable ∷ accept4 ∷ h) = failing (pos 103)
abort_later c h = plain 5 []

abbrev aborting : Kernel
aborting = record { reply = λ h c. abort_later c h; rounds = 2; flags_from_bits = λ n. some n }

aborting_can_set_up : SetsUp aborting socket_path socket_path true []
aborting_can_set_up = record {
  removed = inl refl;
  made = refl;
  bound = refl;
  heard = refl;
  registered = refl;
  notified = inr refl;
}

command_parsed : parse_args (program ∷ command) ≡ ok (run true socket_path)
unfolding parse_args
command_parsed = refl

start_ends_example : start some (program ∷ command) aborting [] ≡ (
  ok (pos 1),
  accept4
      ∷ readable
      ∷ accept4
      ∷ readable
      ∷ served ((0, pos 5) ∷ []) (set_up socket_path socket_path true []),
)
start_ends_example =
    start_ends some aborting program command socket_path socket_path true ((0, pos 5) ∷ []) 0 1 []
      ((parse_args_iff program command true socket_path).0 command_parsed) refl aborting_can_set_up
      refl (omega arith, (refl, refl), refl, refl, refl, tt) (omega arith)
      (refl, refl, (refl, refl)) refl

can_set_up : SetsUp willing socket_path socket_path true []
can_set_up = record {
  removed = inl refl;
  made = refl;
  bound = refl;
  heard = refl;
  registered = refl;
  notified = inr refl;
}

do_main_serves_example :
    do_main some true socket_path willing []
    ≡ accept_loop 1 willing (served ((0, pos 5) ∷ []) (set_up socket_path socket_path true []))
do_main_serves_example =
    do_main_serves some willing socket_path socket_path true ((0, pos 5) ∷ []) 1 [] refl can_set_up
      refl (omega arith, (refl, refl), refl, refl, refl, tt)

abbrev advance : Bytes → ℕ → ReadBuf → Result ReadBuf
advance mem n buf =
    if ltb buf.room n
    then panic
    else ok (record { filled = buf.filled ++ take n mem; room = buf.room - n })

-- Three bytes are in the pipe.
abbrev three : Kernel
three = record { reply = λ h c. plain 3 (codes "abc"); rounds = 1; flags_from_bits = λ n. some n }

abbrev buffer : ReadBuf
buffer = record { filled = codes "x"; room = 7 }

-- The runtime says at once that the pipe is ready.
abbrev at_once : Action (Poll (Result (Unit {0})))
at_once = pure (ready (ok tt))

poll_read_fills_example : poll_read advance at_once buffer three [] ≡ (
  ok (
    record { poll = ready (ok tt); retained = true },
    record { filled = codes "x" ++ codes "abc"; room = 4 },
  ),
  read 7 ∷ [],
)
poll_read_fills_example =
    poll_read_fills advance at_once buffer 3 three [] [] (λ mem n buf h. ground arith) refl refl
      refl (omega arith) (omega arith)

-- The pipe is empty, or full.
abbrev stuck : Kernel
stuck = record { reply = λ h c. failing (pos 11); rounds = 1; flags_from_bits = λ n. some n }

polls_pending_iff_example :
    ((poll_read advance at_once buffer stuck []
        ≡ (ok (record { poll = pending; retained = false }, buffer), read 7 ∷ []))
      ↔ ((eq_ℤ minus_one minus_one ≡ true)
          × (eq_ℤ (pos 11) eagain ≡ true)
          × (false ≡ false)
          × (buffer ≡ buffer)))
    × ((poll_write at_once (codes "abc") stuck []
          ≡ (ok (record { poll = pending; retained = false }), write (codes "abc") ∷ []))
        ↔ ((eq_ℤ minus_one minus_one ≡ true) × (eq_ℤ (pos 11) eagain ≡ true) × (false ≡ false)))
    × ((poll_read advance at_once buffer stuck []).1 ≡ read 7 ∷ [])
    × ((poll_write at_once (codes "abc") stuck []).1 ≡ write (codes "abc") ∷ [])
polls_pending_iff_example =
    polls_pending_iff advance at_once buffer buffer (codes "abc") false stuck [] [] refl

abbrev asking_help : List Bytes
asking_help = codes "/run/s" ∷ codes "-h" ∷ codes "-x" ∷ []

help_shown : parse_args (codes "d" ∷ asking_help) ≡ ok (usage (pos 0) (usage_text (codes "d")))
unfolding parse_args usage_text
help_shown = refl

parse_args-Ends_example : Ends (codes "d") asking_help (pos 0) (usage_text (codes "d"))
parse_args-Ends_example =
    parse_args-Ends (codes "d") asking_help (pos 0) (usage_text (codes "d")) help_shown
