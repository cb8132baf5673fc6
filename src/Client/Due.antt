-- ===== src/Client/Due.antt =====
-- When an answer of src/client.rs may be sent: once for each message, and again only if the kernel took none of
-- it.
use pve_lxc_syscalld.Base.{
  ℕ, zero, suc, ◌≤◌, ◌≡◌, refl, Bytes, List, [], ◌∷◌, length, take, Bool, true, false, ℤ, minus_one,
  eq_ℤ, Result, ok, err, panic, hang, if◌then◌else◌,
}
use pve_lxc_syscalld.Kernel.{
  Kernel, History, Call, recvmsg, sendmsg, writable, close, dropped, left_with,
}
use pve_lxc_syscalld.Kernel.Laws.{close_all_drops}
use pve_lxc_syscalld.Io.{wrap_loop, would_block}
use pve_lxc_syscalld.Syscall.{SyscallStatus}
use pve_lxc_syscalld.Client.Answers.{answer}
use pve_lxc_syscalld.Frame.{is_aside, Apart, same, aside}

-- It answers the message that was received last, by some status, for which nothing was sent yet but what would
-- have blocked. The message filled the fixed part of a packet, and was cut to the room in the buffers; no
-- descriptor was closed meanwhile.
pub data IsDue (room : ℕ) (k : Kernel) (content : Bytes) : History → Type 0 where
  arrived :
      (h : History) (received : Bytes) (s : SyscallStatus)
      → eq_ℤ (k.reply h recvmsg).res minus_one ≡ false
      → received ≡ take room (k.reply h recvmsg).out
      → 136 ≤ length received
      → content ≡ answer received s
      → IsDue room k content (recvmsg ∷ h)
  blocked :
      (h : History)
      → would_block (k.reply h (sendmsg content)) ≡ true
      → IsDue room k content (sendmsg content ∷ h)
  later :
      (c : Call) (h : History)
      → is_aside c ≡ true
      → IsDue room k content h
      → IsDue room k content (c ∷ h)

-- Each datagram that was sent was due.
abbrev pub OnlyAnswers : ℕ → Kernel → History → Type 0
OnlyAnswers room k [] = Unit {0}
OnlyAnswers room k (sendmsg content ∷ h) = IsDue room k content h × OnlyAnswers room k h
OnlyAnswers room k (c ∷ h) = OnlyAnswers room k h

module _ (room : ℕ) (k : Kernel) where
  aside-OnlyAnswers :
      (c : Call) (h : History)
      → is_aside c ≡ true
      → OnlyAnswers room k h
      → OnlyAnswers room k (c ∷ h)
  aside-OnlyAnswers (sendmsg content) h e w = cc
  aside-OnlyAnswers recvmsg h e w = cc
  aside-OnlyAnswers (close fd) h e w = cc
  aside-OnlyAnswers c h e w = w

  pub Apart-OnlyAnswers :
      {h h' : History} → Apart h h' → OnlyAnswers room k h → OnlyAnswers room k h'
  Apart-OnlyAnswers same w = w
  Apart-OnlyAnswers (aside c {h'} e p) w = aside-OnlyAnswers c h' e (Apart-OnlyAnswers p w)

  pub Apart-IsDue :
      (content : Bytes) {h h' : History}
      → Apart h h'
      → IsDue room k content h
      → IsDue room k content h'
  Apart-IsDue content same w = w
  Apart-IsDue content (aside c {h'} e p) w = later c h' e (Apart-IsDue content p w)

  pub dropped-OnlyAnswers :
      (fds : List ℤ) (h : History) → OnlyAnswers room k h → OnlyAnswers room k (dropped fds h)
  dropped-OnlyAnswers [] h w = w
  dropped-OnlyAnswers (fd ∷ fds) h w = dropped-OnlyAnswers fds (close fd ∷ h) w

  pub owned-OnlyAnswers {ℓ} :
      {A : Type ℓ} (fds : List ℤ) (x : Result A × History)
      → OnlyAnswers room k x.1
      → OnlyAnswers room k (left_with fds x k).1
  owned-OnlyAnswers fds (ok a, h) w = w
  owned-OnlyAnswers fds (err e, h) w = rw (close_all_drops fds k h) (dropped-OnlyAnswers fds h w)
  owned-OnlyAnswers fds (panic, h) w = rw (close_all_drops fds k h) (dropped-OnlyAnswers fds h w)
  owned-OnlyAnswers fds (hang, h) w = w

  pub if-OnlyAnswers {ℓ} :
      {A : Type ℓ} (t : Bool) (x y : Result A × History)
      → (t ≡ true → OnlyAnswers room k x.1)
      → OnlyAnswers room k y.1
      → OnlyAnswers room k (if t then x else y).1
  if-OnlyAnswers true x y p q = p refl
  if-OnlyAnswers false x y p q = q

  -- The loop that sends what is due.
  pub sending-OnlyAnswers :
      (n : ℕ) (content : Bytes) (h : History)
      → IsDue room k content h
      → OnlyAnswers room k h
      → OnlyAnswers room k (wrap_loop n writable (sendmsg content) k h).1
  unfolding wrap_loop
  sending-OnlyAnswers zero content h due w = w
  sending-OnlyAnswers (suc n) content h due w =
      let h1 = writable ∷ h in
      let now = later writable h refl due in
      if-OnlyAnswers (eq_ℤ (k.reply h writable).res minus_one) _ _ (λ _. w)
        (if-OnlyAnswers (would_block (k.reply h1 (sendmsg content))) _ _
          (λ q. sending-OnlyAnswers n content (sendmsg content ∷ h1) (blocked h1 q) (now, w))
          (now, w))
