-- ===== src/Io/Pipe.antt =====
-- src/io/pipe.rs: the making of a pipe and its two poll functions. To ask the runtime for its readiness is a
-- parameter, and so is the buffer's `advance`; what the code tells the runtime is part of the result.
pub mod Polls
use pve_lxc_syscalld.Base.{
  ◌||◌, ℕ, ◌+◌, ◌-◌, ℤ, pos, minus_one, eq_ℤ, is_negative, as_u64, Bytes, ◌++◌, length, take, Bool,
  true, false, ltb, if◌then◌else◌, ◌&&◌, Result, ok, err, panic, hang, os,
}
use pve_lxc_syscalld.Libc.{eagain}
use pve_lxc_syscalld.Kernel.{
  c_try, ◌>>◌, register_pipe, pipe as sys_pipe, lift, Kernel, History, Reply, Action, ◌>>=◌, pure,
  call, read, write, c_result,
}

-- `pipe_fds()`, the conversion of one end for the runtime, and `pipe()`. The descriptors' numbers are
-- not modelled: the calls name their end.
unfoldable pub pipe_fds : Action (Unit {0})
unfolding c_result
pipe_fds = do c_try sys_pipe; pure tt

unfoldable pub try_into_pipe : Action (Unit {0})
unfolding c_result
try_into_pipe = do c_try register_pipe; pure tt

unfoldable pub both_ends : Action (Unit {0})
unfolding pipe_fds try_into_pipe
both_ends = do pipe_fds; try_into_pipe; try_into_pipe

pub data Poll {ℓ} (A : Type ℓ) : Type ℓ where
  ready : A → Poll A
  pending : Poll A

-- The runtime's `ReadBuf`: what is filled, and how many bytes more it can hold.
pub record ReadBuf : Type 0 where
  pub filled : Bytes
  pub room : ℕ

-- How the poll came out, and if the runtime goes on to take the pipe for ready.
pub record Polled {ℓ} (A : Type ℓ) : Type ℓ where
  pub poll : Poll (Result A)
  pub retained : Bool

module _ (advance : Bytes → ℕ → ReadBuf → Result ReadBuf) where
  -- The `match` in `poll_read`. `advance` is the runtime's `buf.advance(received)`, with the bytes that were
  -- read into the unfilled part of the buffer.
  unfoldable pub read_outcome : Reply → ReadBuf → Result (Polled (Unit {0}) × ReadBuf)
  unfolding c_result
  read_outcome r buf = elim (c_result r) [
    | ok r' ↦
        elim (if is_negative r'.res || eq_ℤ r'.res (pos 0)
          then ok buf
          else advance r'.out (as_u64 r'.res) buf) [
            | ok buf' ↦ ok (record { poll = ready (ok tt); retained = true }, buf')
            | err e ↦ err e
            | panic ↦ panic
            | hang ↦ hang
          ]
    | err e ↦
        if eq_ℤ r.errno eagain
        then ok (record { poll = pending; retained = false }, buf)
        else ok (record { poll = ready (err e); retained = true }, buf)
    | panic ↦ panic
    | hang ↦ hang
  ]

  -- `ready!(self.fd.poll_read_ready(cx))?`, then the read. `poll_read_ready` is the runtime's.
  unfoldable pub poll_read :
      Action (Poll (Result (Unit {0}))) → ReadBuf → Action (Polled (Unit {0}) × ReadBuf)
  unfolding read_outcome
  poll_read poll_read_ready buf = do
    is_ready ← poll_read_ready
    elim is_ready [
      | pending ↦ pure (record { poll = pending; retained = true }, buf)
      | ready said ↦ elim said [
        | ok _ ↦ (call (read buf.room) >>= λ r. lift (read_outcome r buf))
        | err e ↦ pure (record { poll = ready (err e); retained = true }, buf)
        | panic ↦ lift panic
        | hang ↦ lift hang
      ]
    ]

unfoldable pub write_outcome : Reply → Polled ℕ
unfolding c_result
write_outcome r = elim (c_result r) [
  | ok r' ↦ record { poll = ready (ok (as_u64 r'.res)); retained = true }
  | err e ↦
      if eq_ℤ r.errno eagain
      then record { poll = pending; retained = false }
      else record { poll = ready (err e); retained = true }
  | panic ↦ record { poll = ready panic; retained = true }
  | hang ↦ record { poll = ready hang; retained = true }
]

unfoldable pub poll_write : Action (Poll (Result (Unit {0}))) → Bytes → Action (Polled ℕ)
unfolding write_outcome
poll_write poll_write_ready buf = do
  is_ready ← poll_write_ready
  elim is_ready [
    | pending ↦ pure (record { poll = pending; retained = true })
    | ready said ↦ elim said [
      | ok _ ↦ (call (write buf) >>= λ r. pure (write_outcome r))
      | err e ↦ pure (record { poll = ready (err e); retained = true })
      | panic ↦ lift panic
      | hang ↦ lift hang
    ]
  ]

-- A pipe has nothing to flush.
unfoldable pub poll_flush : Poll (Result (Unit {0}))
poll_flush = ready (ok tt)

unfoldable pub poll_shutdown : Poll (Result (Unit {0}))
poll_shutdown = ready (ok tt)
