-- ===== src/Client/Conversation.antt =====
-- The messages of a client and their answers, in order, in `main_do` of src/client.rs.
use pve_lxc_syscalld.Base.{
  Error, words, ℕ, zero, suc, ◌+◌, ◌<◌, ◌≤◌, ◌≡◌, refl, ap, arith, pos, minus_one, eq_ℤ, Bytes,
  length, All, IsByte, List, [], ◌∷◌, true, false, Result, ok, err,
}
use pve_lxc_syscalld.Kernel.{readable, writable, shutdown, Kernel, History, recvmsg, sendmsg}
use pve_lxc_syscalld.Io.Waiting.{attempts, BlocksFor}
use pve_lxc_syscalld.Seccomp.{decode_notif, SeccompNotifSizes}
use pve_lxc_syscalld.Syscall.{SyscallStatus, done, failed}
use pve_lxc_syscalld.SysMknod.{DevNumbers}
use pve_lxc_syscalld.LxcSeccomp.{ProxyMessageBuffer, new, recv}
use pve_lxc_syscalld.Client.{
  status_or_error, set_response, handle_syscall_do, handle_syscall, serve, main_do, main,
}
use pve_lxc_syscalld.Client.Steps.{
  length-answer, respond_returns, recv_closed, caught_number, shut_down,
}
use pve_lxc_syscalld.Client.Answers.{
  TakenAs, answer, HasSix, arrived, emptied, recv_taken, taken_echoes, taken_HasSix,
}

module _ (d : DevNumbers) (k : Kernel) where
  -- A packet is received and the outcome of its handling has a number: it is answered at once, and the
  -- sending succeeds. `waits` and `send_waits` count the attempts that would block.
  pub record Exchange (b : ProxyMessageBuffer) (h : History) (received : Bytes) (s : SyscallStatus)
      : Type 0 where
    pub waits : ℕ
    pub in_time : waits < k.rounds
    pub blocks : BlocksFor k readable recvmsg (emptied b h) waits
    pub taken : ProxyMessageBuffer
    pub handed : History
    pub accepts : recv b k h ≡ (ok (true, taken), handed)
    pub is_received : arrived b waits k (emptied b h) ≡ received
    pub bytes : All IsByte received
    pub whole : 112 ≤ length received
    pub outcome : Result SyscallStatus
    pub handled : History
    pub handles : handle_syscall_do d taken k handed ≡ (outcome, handled)
    pub has_number : status_or_error outcome ≡ ok s
    pub send_waits : ℕ
    pub send_in_time : send_waits < k.rounds
    pub send_blocks : BlocksFor k writable (sendmsg (answer received s)) handled send_waits
    pub sends :
        (k.reply
          (attempts writable send_waits (sendmsg (answer received s)) handled)
          (sendmsg (answer received s))).res
        ≡ pos 136

  module _ (b : ProxyMessageBuffer) (h : History) (received : Bytes) (s : SyscallStatus) where
    -- The history after it ends with the answer.
    abbrev pub answered : Exchange b h received s → History
    answered x =
        sendmsg (answer received s)
        ∷ attempts writable x.send_waits (sendmsg (answer received s)) x.handled

    exchange_taken : (x : Exchange b h received s) → TakenAs b received x.taken
    exchange_taken x =
        rw x.is_received at (recv_taken b x.taken x.waits k h x.handed x.in_time x.blocks x.accepts)

    exchange_returns :
        (x : Exchange b h received s)
        → HasSix b
        → handle_syscall d x.taken k x.handed ≡ (ok (set_response x.taken s), answered x)
    unfolding handle_syscall
    exchange_returns x w =
        let took =
          rw x.is_received at
            (recv_taken b x.taken x.waits k h x.handed x.in_time x.blocks x.accepts) in
        let long = length-answer received s x.whole in
        rw (x.handles, caught_number x.outcome s x.handled x.has_number, x.has_number)
          (rw
            (respond_returns (set_response x.taken s) (answer received s) x.send_waits k x.handled
              (taken_echoes b x.taken received s x.whole x.bytes w took) (omega (arith, long))
              x.send_in_time x.send_blocks (rw long x.sends))
            refl)

pub set_response-HasSix :
    (b : ProxyMessageBuffer) (s : SyscallStatus) → HasSix b → HasSix (set_response b s)
unfolding set_response
set_response-HasSix b (done v) w = w
set_response-HasSix b (failed e) w = w

pub new-HasSix : (sizes : SeccompNotifSizes) (cookie_mem : Bytes) → HasSix (new sizes cookie_mem)
unfolding new decode_notif words
new-HasSix sizes cookie_mem = refl

module _ (d : DevNumbers) (k : Kernel) where
  -- From one buffer and history to another, by packets that each got the status beside it for an answer.
  pub data Talks
      : ProxyMessageBuffer
        → History
        → List (Bytes × SyscallStatus)
        → ProxyMessageBuffer
        → History
        → Type 0 where
    quiet : {b : ProxyMessageBuffer} {h : History} → Talks b h [] b h
    exchange :
        {b b' : ProxyMessageBuffer} {h h' : History} {received : Bytes} {s : SyscallStatus}
        {es : List (Bytes × SyscallStatus)} (x : Exchange d k b h received s)
        → Talks (set_response x.taken s) (answered d k b h received s x) es b' h'
        → Talks b h ((received, s) ∷ es) b' h'

  serve-Talks :
      (b b' : ProxyMessageBuffer) (h h' : History) (es : List (Bytes × SyscallStatus)) (total m : ℕ)
      → total ≡ length es + m
      → HasSix b
      → Talks b h es b' h'
      → serve d total b k h ≡ serve d m b' k h'
  unfolding serve
  serve-Talks b b' h h' [] total m e w quiet = ap (λ j. serve d j b k h) (omega (arith, e))
  serve-Talks b b' h h' ((received, s) ∷ es) zero m e w (exchange x t) = absurd (omega arith)
  serve-Talks b b' h h' ((received, s) ∷ es) (suc total) m e w (exchange x t) =
      let next =
        set_response-HasSix x.taken s
          (taken_HasSix b x.taken received (exchange_taken d k b h received s x)) in
      rw x.accepts (
        rw (exchange_returns d k b h received s x w) (
          serve-Talks (set_response x.taken s) b' (answered d k b h received s x) h' es total m
            (omega arith) next t))

  -- Each message of a client, received whole and handled to an outcome with a number, is answered by one
  -- datagram of 136 bytes before the next is waited for; then the loop goes on. Where the client hangs up,
  -- its task ends, without an error. Each wait has to stay within its rounds.
  pub main_answers :
      (sizes : SeccompNotifSizes) (cookie_mem : Bytes) (b' : ProxyMessageBuffer) (h' : History)
      (es : List (Bytes × SyscallStatus)) (m n : ℕ)
      → k.rounds ≡ length es + suc m
      → Talks (new sizes cookie_mem) [] es b' h'
      → n < k.rounds
      → BlocksFor k readable recvmsg (emptied b' h') n
      → eq_ℤ (k.reply (attempts readable n recvmsg (emptied b' h')) recvmsg).res minus_one ≡ false
      → (k.reply (attempts readable n recvmsg (emptied b' h')) recvmsg).out ≡ []
      → main d sizes cookie_mem k []
        ≡ (ok tt, recvmsg ∷ attempts readable n recvmsg (emptied b' h'))
  unfolding main main_do
  main_answers sizes cookie_mem b' h' es m n e t lt bl fine gone =
      rw
        (serve-Talks (new sizes cookie_mem) b' [] h' es k.rounds (suc m) e
          (new-HasSix sizes cookie_mem) t)
        (rw (recv_closed b' k h' n lt bl fine gone) refl)

  -- An error in taking the next message drops the client: its socket is shut down, and its task ends.
  pub main_drops :
      (sizes : SeccompNotifSizes) (cookie_mem : Bytes) (b' : ProxyMessageBuffer) (h' h'' : History)
      (es : List (Bytes × SyscallStatus)) (m : ℕ) (x : Error)
      → k.rounds ≡ length es + suc m
      → Talks (new sizes cookie_mem) [] es b' h'
      → recv b' k h' ≡ (err x, h'')
      → main d sizes cookie_mem k [] ≡ (ok tt, shutdown ∷ h'')
  unfolding main main_do
  main_drops sizes cookie_mem b' h' h'' es m x e t r =
      rw
        (serve-Talks (new sizes cookie_mem) b' [] h' es k.rounds (suc m) e
          (new-HasSix sizes cookie_mem) t)
        (rw r (shut_down k h''))
