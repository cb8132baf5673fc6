-- ===== src/Client/Mute.antt =====
-- Actions of src/client.rs and src/lxcseccomp.rs that send nothing, and when they come to an outcome.
use pve_lxc_syscalld.Base.{
  is_hang, ◌<◌, arith, ◌≡◌, refl, ℕ, zero, suc, ◌∷◌, length, ◌==◌, Bytes, List, ℤ, Bool, true,
  false, minus_one, eq_ℤ, Result, ok, err, panic, hang, if◌then◌else◌,
}
use pve_lxc_syscalld.Kernel.{
  Kernel, History, Action, Call, left_with, recvmsg, readable, ◌>>=◌, ◌>>◌, then_run, lift, pure,
  owning, close_all,
}
use pve_lxc_syscalld.Kernel.Laws.{close_all_drops}
use pve_lxc_syscalld.Io.{wrap_loop, wrap_read, would_block}
use pve_lxc_syscalld.Io.Cmsg.{capacity}
use pve_lxc_syscalld.Io.SeqPacket.{recvmsg_vectored}
use pve_lxc_syscalld.LxcSeccomp.{
  ProxyMessageBuffer, iovec_size, scatter, reset, reset_drops, accept_message, recv,
}
use pve_lxc_syscalld.Frame.{Frames, IsFair, Passes}
use pve_lxc_syscalld.Frame.Rules.{c_result_returns, then_returns}
use pve_lxc_syscalld.Frame.Returns.{set_len_returns, two_fds_returns}
use pve_lxc_syscalld.Frame.Reads.{Frames-try_from_fd}
use pve_lxc_syscalld.Client.Due.{
  OnlyAnswers, Apart-OnlyAnswers, dropped-OnlyAnswers, owned-OnlyAnswers, if-OnlyAnswers,
}

-- The action sends nothing, and it comes to an outcome if the kernel is fair.
pub record IsMute {ℓ} {A : Type ℓ} (m : Action A) : Type 0 where
  pub returns : (k : Kernel) (h : History) → IsFair k → is_hang (m k h).0 ≡ false
  pub run :
      (room : ℕ) (k : Kernel) (h : History) → OnlyAnswers room k h → OnlyAnswers room k (m k h).1

IsMute-framed {ℓ} : {A : Type ℓ} (m : Action A) → Frames m → IsMute m
IsMute-framed m p = record {
  returns = p.returns;
  run = λ room k h w. Apart-OnlyAnswers room k (p.run k h) w;
}

IsMute-lift {ℓ} : {A : Type ℓ} (r : Result A) → is_hang r ≡ false → IsMute (lift r)
IsMute-lift r e = record { returns = λ k h f. e; run = λ room k h w. w }

IsMute-pure {ℓ} : {A : Type ℓ} (a : A) → IsMute (pure a)
IsMute-pure a = record { returns = λ k h f. refl; run = λ room k h w. w }

then_mute {ℓ κ} :
    {A : Type ℓ} {B : Type κ} (x : Result A × History) (f : A → Action B) (room : ℕ) (k : Kernel)
    → OnlyAnswers room k x.1
    → ((a : A) → IsMute (f a))
    → OnlyAnswers room k (then_run x f k).1
then_mute (ok a, h) f room k w p = (p a).run room k h w
then_mute (err e, h) f room k w p = w
then_mute (panic, h) f room k w p = w
then_mute (hang, h) f room k w p = w

IsMute-bind {ℓ κ} :
    {A : Type ℓ} {B : Type κ} (m : Action A) (f : A → Action B)
    → IsMute m
    → ((a : A) → IsMute (f a))
    → IsMute (m >>= f)
IsMute-bind m f p q = record {
  returns = λ k h w. then_returns (m k h) f k (p.returns k h w) (λ a h'. (q a).returns k h' w);
  run = λ room k h w. then_mute (m k h) f room k (p.run room k h w) q;
}

IsMute-then {ℓ κ} :
    {A : Type ℓ} {B : Type κ} (m : Action A) (n : Action B) → IsMute m → IsMute n → IsMute (m >> n)
IsMute-then m n p q = IsMute-bind m (λ _. n) p (λ _. q)

IsMute-if {ℓ} :
    {A : Type ℓ} (t : Bool) (m n : Action A) → IsMute m → IsMute n → IsMute (if t then m else n)
IsMute-if true m n p q = p
IsMute-if false m n p q = q

pub left_returns {ℓ} :
    {A : Type ℓ} (fds : List ℤ) (x : Result A × History) (k : Kernel)
    → is_hang x.0 ≡ false
    → is_hang (left_with fds x k).0 ≡ false
left_returns fds (ok a, h) k e = refl
left_returns fds (err y, h) k e = rw (close_all_drops fds k h) refl
left_returns fds (panic, h) k e = rw (close_all_drops fds k h) refl
left_returns fds (hang, h) k e = e

IsMute-owning {ℓ} : {A : Type ℓ} (fds : List ℤ) (m : Action A) → IsMute m → IsMute (owning fds m)
IsMute-owning fds m p = record {
  returns = λ k h w. left_returns fds (m k h) k (p.returns k h w);
  run = λ room k h w. owned-OnlyAnswers room k fds (m k h) (p.run room k h w);
}

IsMute-close_all : (fds : List ℤ) → IsMute (close_all fds)
IsMute-close_all fds = record {
  returns = λ k h w. rw (close_all_drops fds k h) refl;
  run = λ room k h w. rw (close_all_drops fds k h) (dropped-OnlyAnswers room k fds h w);
}

receiving :
    (n : ℕ) (room : ℕ) (k : Kernel) (h : History)
    → OnlyAnswers room k h
    → OnlyAnswers room k (wrap_loop n readable recvmsg k h).1
unfolding wrap_loop
receiving zero room k h w = w
receiving (suc n) room k h w =
    if-OnlyAnswers room k (eq_ℤ (k.reply h readable).res minus_one) _ _ (λ _. w)
      (if-OnlyAnswers room k (would_block (k.reply (readable ∷ h) recvmsg)) _ _
        (λ _. receiving n room k (recvmsg ∷ readable ∷ h) w) w)

-- A loop ends if the call is not held up for as many rounds.
pub passed :
    (n fuel : ℕ) (ready c : Call) (k : Kernel) (h : History)
    → n < fuel
    → Passes k ready c n h
    → is_hang (wrap_loop fuel ready c k h).0 ≡ false
unfolding wrap_loop
passed n zero ready c k h lt w = absurd (omega arith)
passed zero (suc fuel) ready c k h lt w = ground (arith, c_result_returns (k.reply (ready ∷ h) c))
passed (suc n) (suc fuel) ready c k h lt w = ground (
  arith,
  c_result_returns (k.reply (ready ∷ h) c),
  λ (v : Passes k ready c n (c ∷ ready ∷ h)).
      passed n fuel ready c k (c ∷ ready ∷ h) (omega arith) v,
)

IsMute-receiving : IsMute (wrap_read recvmsg)
unfolding wrap_read
IsMute-receiving = record {
  returns = λ k h w.
      let (n, lt, passes) = w.receives h in passed n k.rounds readable recvmsg k h lt passes;
  run = λ room k h w. receiving k.rounds room k h w;
}

ruleset muting =
    (IsMute-bind, IsMute-then, IsMute-lift, IsMute-pure, IsMute-if, IsMute-owning, IsMute-close_all)

IsMute-accept_message :
    (b : ProxyMessageBuffer) (received control : Bytes) → IsMute (accept_message b received control)
unfolding accept_message
IsMute-accept_message b received control =
    search (muting, IsMute-framed, Frames-try_from_fd, set_len_returns, two_fds_returns) depth 9

IsMute-recvmsg_vectored : (room cmsg_room : ℕ) → IsMute (recvmsg_vectored room cmsg_room)
unfolding recvmsg_vectored
IsMute-recvmsg_vectored room cmsg_room = search (muting, IsMute-receiving)

pub IsMute-recv : (b : ProxyMessageBuffer) → IsMute (recv b)
unfolding recv
IsMute-recv b = IsMute-then _ _ (IsMute-close_all (reset_drops b)) (
    IsMute-bind _ _ (IsMute-recvmsg_vectored (iovec_size b) (capacity 8)) λ (received, control).
      let b' = scatter (reset b) received in
      IsMute-if (length received == 0) _ _ (IsMute-pure (false, b'))
        (IsMute-accept_message b' received control))
