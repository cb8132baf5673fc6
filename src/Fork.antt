-- ===== src/Fork.antt =====
-- src/fork.rs, with src/tools.rs and the pipe of src/io/pipe.rs as far as it uses them: a system call
-- is made in a forked child, which sends its outcome through a pipe. The history holds the calls of
-- both processes. The child's memory is a copy, so that nothing but the bytes in the pipe comes back.
pub mod Transport
pub mod Waiting
pub mod EndToEnd
pub mod Failures
use pve_lxc_syscalld.Tools.{set_fd_nonblocking}
use pve_lxc_syscalld.Base.{
  expect_ok, false, ℕ, zero, suc, ℤ, pos, negsuc, minus_one, eq_ℤ, signed32, signed64, as_u32,
  as_u64, Bytes, List, [], ◌∷◌, length, ltb, ◌&&◌, not, if◌then◌else◌, Option, some, none, Error,
  Result, ok, err, panic, hang, os, io_kind, unexpected_eof, kind_other, words, unwords, take,
}
use pve_lxc_syscalld.Libc.{eintr, efault}
use pve_lxc_syscalld.Kernel.{
  Action, ◌>>=◌, ◌>>◌, lift, pure, throw, call, c_try, c_result, attempt, Reply, pipe, fork,
  write_pipe, exit, register_pipe, read_pipe, kill, waitpid, Kernel, History,
}
use pve_lxc_syscalld.Io.Pipe.{pipe_fds, try_into_pipe}
use pve_lxc_syscalld.Seccomp.{field_at}
use pve_lxc_syscalld.Syscall.{SyscallStatus, done, failed}

-- The packed structure that goes through the pipe.
pub record Packet : Type 0 where
  pub val : ℤ
  pub error : ℤ
  pub failure : ℤ

abbrev pub packet_layout : List ℕ
packet_layout = 8 ∷ 4 ∷ 4 ∷ []

unfoldable pub encode_packet : Packet → Bytes
encode_packet p = unwords packet_layout (as_u64 p.val ∷ as_u32 p.error ∷ as_u32 p.failure ∷ [])

abbrev pub packet_of_words : List ℕ → Packet
packet_of_words vs = record {
  val = signed64 (field_at vs 0);
  error = signed32 (field_at vs 1);
  failure = signed32 (field_at vs 2);
}

unfoldable pub decode_packet : Bytes → Packet
decode_packet bs = packet_of_words (words packet_layout bs)

-- `err.raw_os_error()`
abbrev pub raw_os_error : Error → Option ℤ
raw_os_error (os e) = some e
raw_os_error _ = none

-- What the child sends; a panic sends nothing.
unfoldable pub packet_of : Result SyscallStatus → Option Packet
packet_of (ok (done val)) = some (record { val = val; error = pos 0; failure = pos 0 })
packet_of (ok (failed e)) = some (record { val = minus_one; error = e; failure = pos 0 })
packet_of (err e) = some (record {
  val = minus_one;
  error = minus_one;
  failure = elim (raw_os_error e) [ some n ↦ n | none ↦ efault ];
})
packet_of _ = none

-- The body of `catch_unwind`: its value is the exit status.
unfoldable pub send_packet : Packet → Action ℤ
unfolding encode_packet
send_packet p = do
  w ← attempt (c_try (write_pipe (encode_packet p)))
  elim w [ ok _ ↦ pure (pos 0) | _ ↦ pure (pos 1) ]

unfoldable pub send_or_panic : Option Packet → Action ℤ
unfolding send_packet
send_or_panic none = lift panic
send_or_panic (some p) = send_packet p

unfoldable pub run_and_send : Action SyscallStatus → Action ℤ
unfolding send_or_panic packet_of
run_and_send func = do out ← attempt func; send_or_panic (packet_of out)

unfoldable pub child_body : Action SyscallStatus → Action ℤ
unfolding run_and_send set_fd_nonblocking
child_body func = do
  blocking ← attempt (set_fd_nonblocking false)
  lift (expect_ok blocking)
  run_and_send func

abbrev pub exit_with : Result ℤ → Action Reply
exit_with (ok status) = call (exit status)
exit_with _ = call (exit minus_one)

-- A panic ends in `_exit(-1)`.
unfoldable pub child_main : Action SyscallStatus → Action (Unit {0})
unfolding child_body
child_main func = do status ← attempt (child_body func); exit_with status; pure tt

-- A pipe that cannot be registered has the child killed.
unfoldable pub registered_or_kill : ℤ → Result (Unit {0}) → Action ℤ
registered_or_kill pid (ok r) = pure pid
registered_or_kill pid (err e) = call (kill pid 9) >> throw e
registered_or_kill pid other = lift panic

-- `Fork::new` in the parent: the child's pid.
unfoldable pub new : Action SyscallStatus → Action ℤ
unfolding child_main registered_or_kill pipe_fds try_into_pipe c_result
new func = do
  pipe_fds
  child ← c_try fork
  child_main func
  registered ← attempt try_into_pipe
  registered_or_kill child.res registered

-- The loop of `Fork::wait`; its value is the exit status.
unfoldable pub wait_loop : ℕ → ℤ → Action ℤ
wait_loop zero pid k h = (hang, h)
wait_loop (suc n) pid k h =
    let again = wait_loop n pid k (waitpid pid ∷ h) in
    let r = k.reply h (waitpid pid) in
    if eq_ℤ r.res minus_one
    then if eq_ℤ r.errno eintr then again else (err (os r.errno), waitpid pid ∷ h)
    else if eq_ℤ r.res pid
    then (ok (r.status), waitpid pid ∷ h)
    else again

unfoldable pub wait : ℤ → Action (Unit {0})
unfolding wait_loop
wait pid = do
  status ← (λ k. wait_loop k.rounds pid k)
  if eq_ℤ status (pos 0) then pure tt else throw (io_kind kind_other)

-- `get_result` on what it read.
unfoldable pub status_of : Packet → Result SyscallStatus
status_of p =
    if not (eq_ℤ p.failure (pos 0))
    then err (os p.failure)
    else if eq_ℤ p.error (pos 0)
    then ok (done p.val)
    else ok (failed p.error)

unfoldable pub get_result : Action SyscallStatus
unfolding status_of decode_packet c_result
get_result = do
  r ← c_try (read_pipe 16)
  if ltb (length r.out) 16
      then throw (io_kind unexpected_eof)
      else lift (status_of (decode_packet (take 16 (r.out))))

-- After an error `Fork` is dropped, which waits for the child and ignores the outcome.
unfoldable pub finish : ℤ → Result SyscallStatus → Action SyscallStatus
unfolding wait
finish pid (ok s) = wait pid >> pure s
finish pid (err e) = do attempt (wait pid); throw e
finish pid other = do attempt (wait pid); lift other

unfoldable pub forking_syscall : Action SyscallStatus → Action SyscallStatus
unfolding new get_result finish
forking_syscall func = do pid ← new func; result ← attempt get_result; finish pid result
