-- ===== src/Io/Pipe/Polls.antt =====
-- How the polls of a pipe come out.
use pve_lxc_syscalld.Base.{
  refl, as_u64, Result, append-nil, ◌-◌, Bool, ℕ, ◌^◌, ◌≤◌, ◌<◌, ◌≡◌, ◌↔◌, pos, minus_one, eq_ℤ,
  Bytes, ◌++◌, [], ◌∷◌, length, take, take_all, true, false, ok, ap, ◌∙◌, sym, arith,
}
use pve_lxc_syscalld.Libc.{eagain}
use pve_lxc_syscalld.Kernel.{Action, Reply, Kernel, History, read, write}
use pve_lxc_syscalld.Io.Pipe.{Poll, read_outcome, ready, pending, ReadBuf, poll_read, poll_write}

filled_zero : (xs ys : Bytes) → length ys ≡ 0 → xs ++ ys ≡ xs
filled_zero xs [] e = append-nil xs
filled_zero xs (y ∷ ys) e = absurd (omega arith)

filled_all : (n : ℕ) (ys : Bytes) → length ys ≡ n → take n ys ≡ ys
filled_all n ys e = ap (λ m. take m ys) (sym e) ∙ take_all ys

-- What the documentation of `advance` says: it takes that many bytes more for filled, if they fit.
abbrev pub Advances : (Bytes → ℕ → ReadBuf → Result ReadBuf) → Type 0
Advances advance =
    (mem : Bytes) (n : ℕ) (buf : ReadBuf)
    → n ≤ buf.room
    → advance mem n buf ≡ ok (record { filled = buf.filled ++ take n mem; room = buf.room - n })

read_outcome-fits :
    (advance : Bytes → ℕ → ReadBuf → Result ReadBuf) (r : Reply) (n : ℕ) (buf : ReadBuf)
    → Advances advance
    → r.res ≡ pos n
    → length r.out ≡ n
    → n ≤ buf.room
    → n < 2 ^ 63
    → read_outcome advance r buf
      ≡ ok (
        record { poll = ready (ok tt); retained = true },
        record { filled = buf.filled ++ r.out; room = buf.room - n },
      )
unfolding read_outcome
read_outcome-fits advance r n buf v e l fits small =
    let sized : as_u64 r.res ≡ n = ap as_u64 e ∙ omega arith in
    ground (
      arith,
      ap (λ j. advance r.out j buf) sized ∙ v r.out n buf fits,
      filled_zero buf.filled r.out,
      filled_all n r.out l,
    )

-- The runtime says that the pipe is ready.
abbrev pub SaysReady : Action (Poll (Result (Unit {0}))) → Kernel → History → History → Type 0
SaysReady ask k h h1 = ask k h ≡ (ok (ready (ok tt)), h1)

-- A read of a ready pipe that returns `n` bytes, no more than fit, puts exactly these behind what the
-- buffer held, and takes `n` of its room; at the end of the pipe nothing changes. The poll is ready, and
-- the runtime goes on to take the pipe for ready.
pub poll_read_fills :
    (advance : Bytes → ℕ → ReadBuf → Result ReadBuf) (ask : Action (Poll (Result (Unit {0}))))
    (buf : ReadBuf) (n : ℕ) (k : Kernel) (h h1 : History)
    → Advances advance
    → SaysReady ask k h h1
    → (k.reply h1 (read buf.room)).res ≡ pos n
    → length (k.reply h1 (read buf.room)).out ≡ n
    → n ≤ buf.room
    → n < 2 ^ 63
    → poll_read advance ask buf k h ≡ (
      ok (
        record { poll = ready (ok tt); retained = true },
        record { filled = buf.filled ++ (k.reply h1 (read buf.room)).out; room = buf.room - n },
      ),
      read buf.room ∷ h1,
    )
unfolding poll_read
poll_read_fills advance ask buf n k h h1 v said r l fits small = rw said (
    ap (λ o. (o, read buf.room ∷ h1))
      (read_outcome-fits advance (k.reply h1 (read buf.room)) n buf v r l fits small))

-- A poll of a pipe that the runtime says is ready ends right behind the one read or write, without asking
-- the runtime again. It is pending exactly if that call would block; the buffer is then as it was, and the
-- runtime is told that the pipe is not ready.
pub polls_pending_iff :
    (advance : Bytes → ℕ → ReadBuf → Result ReadBuf) (ask : Action (Poll (Result (Unit {0}))))
    (buf buf' : ReadBuf) (content : Bytes) (retained : Bool) (k : Kernel) (h h1 : History)
    → SaysReady ask k h h1
    → ((poll_read advance ask buf k h
          ≡ (ok (record { poll = pending; retained = retained }, buf'), read buf.room ∷ h1))
        ↔ ((eq_ℤ (k.reply h1 (read buf.room)).res minus_one ≡ true)
            × (eq_ℤ (k.reply h1 (read buf.room)).errno eagain ≡ true)
            × (retained ≡ false)
            × (buf' ≡ buf)))
      × ((poll_write ask content k h
            ≡ (ok (record { poll = pending; retained = retained }), write content ∷ h1))
          ↔ ((eq_ℤ (k.reply h1 (write content)).res minus_one ≡ true)
              × (eq_ℤ (k.reply h1 (write content)).errno eagain ≡ true)
              × (retained ≡ false)))
      × ((poll_read advance ask buf k h).1 ≡ read buf.room ∷ h1)
      × ((poll_write ask content k h).1 ≡ write content ∷ h1)
unfolding poll_read poll_write
polls_pending_iff advance ask buf buf' content retained k h h1 said =
    rw said (ground arith, ground arith, refl, refl)
