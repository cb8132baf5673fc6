-- ===== src/Ledger/Balance.antt =====
-- What keeps `Balanced`, and what the loops of src/io/mod.rs and the drops do to it.
use pve_lxc_syscalld.Base.{
  ℕ, zero, suc, ◌+◌, ◌≡◌, refl, arith, ℤ, minus_one, eq_ℤ, List, [], ◌∷◌, ◌++◌, take, Bool, true,
  false, if◌then◌else◌, Result, ok, err, panic, hang, pos, negsuc, os,
}
use pve_lxc_syscalld.Kernel.{Reply, Kernel, History, readable, recvmsg, close, dropped, c_result}
use pve_lxc_syscalld.Io.{wrap_loop, would_block}
use pve_lxc_syscalld.Io.Cmsg.{capacity}
use pve_lxc_syscalld.LxcSeccomp.{fds_wrapped}
use pve_lxc_syscalld.Ledger.Rules.{Quiet-call}
use pve_lxc_syscalld.Ledger.{rights_of, handed, count, Same, Balanced}

count-append : (fd : ℤ) (xs ys : List ℤ) → count fd (xs ++ ys) ≡ count fd xs + count fd ys
count-append fd [] ys = omega arith
count-append fd (x ∷ xs) ys = ground (arith, count-append fd xs ys)

eq_ℤ_refl : (x : ℤ) → eq_ℤ x x ≡ true
eq_ℤ_refl (pos n) = ground arith
eq_ℤ_refl (negsuc n) = ground arith

module _ (k : Kernel) where
  pub Balanced-Same :
      (h h' : History) (fds : List ℤ) → Same k h h' → Balanced k h fds → Balanced k h' fds
  Balanced-Same h h' fds (p, q, u) b = record {
    balance = λ fd. rw (p, q) (b.balance fd);
    each_open = u b.each_open;
  }

  Balanced-close :
      (h : History) (x : ℤ) (fds : List ℤ) → Balanced k h (x ∷ fds) → Balanced k (close x ∷ h) fds
  Balanced-close h x fds b = record {
    balance = λ fd. ground (arith, b.balance fd);
    each_open = ((ground (arith, b.balance x, eq_ℤ_refl x), tt), b.each_open);
  }

  -- Descriptors that are dropped are no longer open.
  pub Balanced-dropped :
      (fds : List ℤ) (h : History) → Balanced k h fds → Balanced k (dropped fds h) []
  Balanced-dropped [] h b = b
  Balanced-dropped (fd ∷ fds) h b = Balanced-dropped fds (close fd ∷ h) (Balanced-close h fd fds b)

  -- It does not matter in which order they are counted.
  pub Balanced-swap :
      (h : History) (xs ys : List ℤ) → Balanced k h (xs ++ ys) → Balanced k h (ys ++ xs)
  Balanced-swap h xs ys b = record {
    balance = λ fd. omega (arith, b.balance fd, count-append fd xs ys, count-append fd ys xs);
    each_open = b.each_open;
  }

  Balanced-received :
      (h : History) → Balanced k h [] → Balanced k (recvmsg ∷ h) (rights_of (k.reply h recvmsg))
  Balanced-received h b = record {
    balance = λ fd.
        omega (arith, b.balance fd, count-append fd (rights_of (k.reply h recvmsg)) (handed k h));
    each_open = (tt, b.each_open);
  }

  -- A wait for a message ends with one, as the last call, or has left nothing open.
  abbrev pub Got : Result Reply × History → Type 0
  Got (ok r, h) =
      (h1 : History) × (h ≡ recvmsg ∷ h1)
      × (r ≡ k.reply h1 recvmsg)
      × (rights_of r ≡ fds_wrapped (take (capacity 8) r.control))
      × Balanced k h (rights_of r)
  Got (err e, h) = Balanced k h []
  Got (panic, h) = Balanced k h []
  Got (hang, h) = Balanced k h []

  Got-if :
      (t : Bool) (x y : Result Reply × History)
      → (t ≡ true → Got x)
      → (t ≡ false → Got y)
      → Got (if t then x else y)
  Got-if true x y p q = p refl
  Got-if false x y p q = q refl

  -- No descriptors come with an error.
  rights-error : (r : Reply) → eq_ℤ r.res minus_one ≡ true → rights_of r ≡ []
  rights-error r e = rw e refl

  received_Got : (h : History) → Balanced k h [] → Got (c_result (k.reply h recvmsg), recvmsg ∷ h)
  unfolding c_result
  received_Got h b = decided (eq_ℤ (k.reply h recvmsg).res minus_one) refl
    where
      decided :
          (t : Bool)
          → eq_ℤ (k.reply h recvmsg).res minus_one ≡ t
          → Got (
            (if t then err (os (k.reply h recvmsg).errno) else ok (k.reply h recvmsg)),
            recvmsg ∷ h,
          )
      decided true q = rw (rights-error (k.reply h recvmsg) q) at (Balanced-received h b)
      decided false q = (h, refl, refl, rw q refl, Balanced-received h b)

  blocked-error : (r : Reply) → would_block r ≡ true → eq_ℤ r.res minus_one ≡ true
  blocked-error r e = ground arith

  pub wait_Got : (n : ℕ) (h : History) → Balanced k h [] → Got (wrap_loop n readable recvmsg k h)
  unfolding wrap_loop
  wait_Got zero h b = b
  wait_Got (suc n) h b =
      let h1 = readable ∷ h in
      let r = k.reply h1 recvmsg in
      let b1 = Balanced-Same h h1 [] (Quiet-call readable k h (refl, λ _. refl)) b in
      let blocked = λ (q : would_block r ≡ true).
        rw (rights-error r (blocked-error r q)) at (Balanced-received h1 b1) in
      Got-if (eq_ℤ (k.reply h readable).res minus_one) _ _ (λ _. b1)
        (λ _.
          Got-if (would_block r) _ _ (λ q. wait_Got n (recvmsg ∷ h1) (blocked q))
            (λ _. received_Got h1 b1))
