-- ===== src/Client/Replies.antt =====
-- What src/client.rs sends to a client, whatever the kernel replies.
use pve_lxc_syscalld.Base.{
  ℕ, zero, suc, ◌+◌, ◌≤◌, ◌≡◌, refl, ap, ◌∙◌, arith, inl, inr, Bytes, [], ◌∷◌, length, take, Bool,
  true, false, Result, ok, err, panic, hang, if◌then◌else◌, All, All-take, IsByte,
}
use pve_lxc_syscalld.Kernel.{
  Kernel, History, recvmsg, then_run, owning, ◌>>=◌, pure, caught, seccomp_sizes,
}
use pve_lxc_syscalld.Kernel.Laws.{owning_ok}
use pve_lxc_syscalld.Seccomp.{SeccompNotifSizes}
use pve_lxc_syscalld.Syscall.{SyscallStatus}
use pve_lxc_syscalld.SysMknod.{DevNumbers}
use pve_lxc_syscalld.LxcSeccomp
use pve_lxc_syscalld.LxcSeccomp.{ProxyMessageBuffer, held, recv, iovec_size, scatter, reset}
use pve_lxc_syscalld.LxcSeccomp.Length.{set_len_le}
use pve_lxc_syscalld.Client.{
  set_response, handle_syscall, serve, main_do, wrap_error, main, first_main,
}
use pve_lxc_syscalld.Client.Answers.{packet, HasSix, taken_echoes, taken_HasSix}
use pve_lxc_syscalld.Client.Conversation.{set_response-HasSix, new-HasSix}
use pve_lxc_syscalld.Client.Dialogue.{Receives, recv-Receives}
use pve_lxc_syscalld.Client.Due.{
  IsDue, arrived, OnlyAnswers, Apart-OnlyAnswers, Apart-IsDue, owned-OnlyAnswers,
  sending-OnlyAnswers,
}
use pve_lxc_syscalld.Client.First.{AreBuiltFor, told, first_main_decides}
use pve_lxc_syscalld.Client.Handled.{respond_calls, handle_syscall_calls, handle_syscall_sets}
use pve_lxc_syscalld.Client.Mute.{IsMute-recv}
use pve_lxc_syscalld.Client.Shape.{
  IsShaped, scatter-IsShaped, taken-IsShaped, set_response-IsShaped, new-IsShaped,
}
use pve_lxc_syscalld.Client.Steps.{shut_down}

-- What the kernel receives are bytes.
abbrev pub ReceivesBytes : Kernel → Type 0
ReceivesBytes k = (h : History) → All IsByte (k.reply h recvmsg).out

module _ (d : DevNumbers) (k : Kernel) (sizes : SeccompNotifSizes) (room : ℕ)
    (fit : AreBuiltFor sizes) (bytes : ReceivesBytes k) where
  -- The room of all four buffers.
  abbrev total_room : ℕ
  total_room = 136 + room

  -- Whatever comes of a message that was taken, its answer is due.
  taken-IsDue :
      (b taken : ProxyMessageBuffer) (h : History) (s : SyscallStatus)
      → IsShaped sizes room b
      → HasSix b
      → Receives b k taken h
      → IsDue total_room k (packet (set_response taken s)) h
  taken-IsDue b taken h s w x (received, h1, fine, part, made, how) =
      let (b1, p, fd, e, q) = how in
      let out = (k.reply h1 recvmsg).out in
      let long : 136 ≤ length received = omega (
        arith,
        set_len_le (scatter (reset b) received) b1 (length received) e,
        (scatter-IsShaped sizes room b received w).same_packet,
      ) in
      let room_of : iovec_size b ≡ total_room = omega (arith, w.same_room) in
      let all_bytes : All IsByte received =
        rw part (All-take IsByte (iovec_size b) out (bytes h1)) in
      let echo = taken_echoes b taken received s (omega (arith, long)) all_bytes x how in
      Apart-IsDue total_room k (packet (set_response taken s)) made
        (arrived h1 received s fine (part ∙ ap (λ n. take n out) room_of) long echo)

  -- Of a message that was taken, only the answer is sent.
  handled-OnlyAnswers :
      (msg : ProxyMessageBuffer) (h : History)
      → ((s : SyscallStatus) → IsDue total_room k (packet (set_response msg s)) h)
      → OnlyAnswers total_room k h
      → OnlyAnswers total_room k (handle_syscall d msg k h).1
  handled-OnlyAnswers msg h due w =
      let (h1, made, ends) = handle_syscall_calls d msg k h in
      let w1 = Apart-OnlyAnswers total_room k made w in
      elim ends [
        | inl e ↦ rw e w1
        | inr (s, e) ↦
            let content = packet (set_response msg s) in
            rw (e, respond_calls)
              (sending-OnlyAnswers total_room k k.rounds content h1
                (Apart-IsDue total_room k content made (due s)) w1)
      ]

  -- What serving the messages to come does.
  abbrev Continues : ℕ → Type 0
  Continues n =
      (msg : ProxyMessageBuffer) (h : History)
      → IsShaped sizes room msg
      → HasSix msg
      → OnlyAnswers total_room k h
      → OnlyAnswers total_room k (serve d n msg k h).1

  answered-OnlyAnswers :
      (n : ℕ) (msg : ProxyMessageBuffer) (h : History)
      → Continues n
      → IsShaped sizes room msg
      → HasSix msg
      → OnlyAnswers total_room k (handle_syscall d msg k h).1
      → OnlyAnswers total_room k
          (then_run (owning (held msg) (handle_syscall d msg) k h) (λ msg'. serve d n msg') k).1
  answered-OnlyAnswers n msg h next w x only =
      split (owning (held msg) (handle_syscall d msg) k h) refl
        (owned-OnlyAnswers total_room k (held msg) (handle_syscall d msg k h) only)
    where
      split :
          (y : Result ProxyMessageBuffer × History)
          → owning (held msg) (handle_syscall d msg) k h ≡ y
          → OnlyAnswers total_room k y.1
          → OnlyAnswers total_room k (then_run y (λ msg'. serve d n msg') k).1
      split (ok msg', h1) e v =
          let (s, q) =
            handle_syscall_sets d msg msg' k h h1
              (owning_ok (held msg) (handle_syscall d msg) k h e) in
          next msg' h1 (rw q (set_response-IsShaped sizes room msg s w))
            (rw q (set_response-HasSix msg s x)) v
      split (err e, h1) q v = v
      split (panic, h1) q v = v
      split (hang, h1) q v = v

  serve-OnlyAnswers : (n : ℕ) → Continues n
  unfolding serve
  serve-OnlyAnswers zero msg h w x only = only
  serve-OnlyAnswers (suc n) msg h w x only =
      split (serve-OnlyAnswers n) (recv msg k h) refl ((IsMute-recv msg).run total_room k h only)
    where
      split :
          Continues n
          → (y : Result (Bool × ProxyMessageBuffer) × History) → recv msg k h ≡ y
          → OnlyAnswers total_room k y.1
          → OnlyAnswers total_room k
              (then_run y
                (λ (more, msg').
                  let next =
                    (owning (held msg') (handle_syscall d msg') >>= λ msg''. serve d n msg'') in
                  if more then next else pure tt)
                k).1
      split next (ok (true, taken), h1) e v =
          let got = recv-Receives msg k h h1 taken e in
          let (received, _, _, _, _, how) = got in
          answered-OnlyAnswers n taken h1 next (taken-IsShaped sizes room msg taken received w how)
            (taken_HasSix msg taken received how)
            (handled-OnlyAnswers taken h1 (λ s. taken-IsDue msg taken h1 s w x got) v)
      split next (ok (false, msg'), h1) e v = v
      split next (err e', h1) e v = v
      split next (panic, h1) e v = v
      split next (hang, h1) e v = v

module _ (d : DevNumbers) (mem : Bytes) (k : Kernel) (bytes : ReceivesBytes k) where
  main-OnlyAnswers :
      (sizes : SeccompNotifSizes) (h : History)
      → AreBuiltFor sizes
      → OnlyAnswers (136 + length mem) k h
      → OnlyAnswers (136 + length mem) k (main d sizes mem k h).1
  unfolding main main_do wrap_error
  main-OnlyAnswers sizes h fit only = ended (main_do d sizes mem k h) (
      serve-OnlyAnswers d k sizes (length mem) fit bytes k.rounds (LxcSeccomp.new sizes mem) h
        (new-IsShaped sizes mem) (new-HasSix sizes mem) only)
    where
      ended :
          (x : Result (Unit {0}) × History)
          → OnlyAnswers (136 + length mem) k x.1
          → OnlyAnswers (136 + length mem) k (then_run (caught x) wrap_error k).1
      ended (ok u, h1) w = w
      ended (err e, h1) w = rw (shut_down k h1) w
      ended (panic, h1) w = w
      ended (hang, h1) w = w

  -- Whatever the kernel replies, as long as what it receives are bytes, and however long the client is
  -- served: each datagram that the daemon sends is the answer to the message that it received last, with the
  -- message's first 112 bytes and id and some status. The message filled the fixed part of a packet, and none
  -- of its descriptors was closed yet. It is the only answer to that message, unless an attempt to send it
  -- would have blocked, and then it is the same again.
  pub first_main-OnlyAnswers : OnlyAnswers (136 + length mem) k (first_main d mem k []).1
  first_main-OnlyAnswers = elim (first_main_decides d mem k []) [
    | inl (fit, e) ↦
        rw e (main-OnlyAnswers (told (k.reply [] seccomp_sizes)) (seccomp_sizes ∷ []) (fit.1) tt)
    | inr (unfit, e) ↦ rw e tt
  ]
