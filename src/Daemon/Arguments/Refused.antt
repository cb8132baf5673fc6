-- ===== src/Daemon/Arguments/Refused.antt =====
-- How `main` of src/main.rs ends on a command line that does not start the daemon.
use pve_lxc_syscalld.Base.{
  ◌≢◌, ℤ, pos, Bytes, codes, List, [], ◌∷◌, ◌++◌, Bool, true, false, ◌||◌, if◌then◌else◌, Option,
  none, some, ok, ◌≡◌, ◌⊎◌, inl, inr, refl, arith,
}
use pve_lxc_syscalld.Daemon.Arguments.{
  Parsed, usage, usage_text, refused, extra, finish_args, operand_loop, starts_with_dash, is_help,
  option_loop, parse_args,
}
use pve_lxc_syscalld.Daemon.Arguments.Accepted.{before, is_marker, is_system, marker-ne-help}

abbrev pub asks_help : List Bytes → Bool
asks_help [] = false
asks_help (arg ∷ args) = is_help arg || asks_help args

either_way :
    {G : Type 0} (b : Bool) (m n : Parsed) {p : Parsed}
    → (b ≡ true → m ≡ p → G)
    → (b ≡ false → n ≡ p → G)
    → (if b then m else n) ≡ p
    → G
either_way true m n f g e = f refl e
either_way false m n f g e = g refl e

module _ (program : Bytes) where
  -- With status 1, and the usage text behind a reason.
  abbrev pub Refuses : ℤ → Bytes → Type 0
  Refuses status out =
      (status ≡ pos 1) × (reason : Bytes) × (reason ≢ []) × (out ≡ reason ++ usage_text program)

  refused-Refuses :
      (reason out : Bytes) (status : ℤ)
      → reason ≢ []
      → refused program reason ≡ usage status out
      → Refuses status out
  unfolding refused
  refused-Refuses reason out status n e = (ground (arith, e), reason, n, ground (arith, e))

  finish_args-Refuses :
      (s : Bool) (o : Option Bytes) (out : Bytes) (status : ℤ)
      → finish_args program s o ≡ usage status out
      → Refuses status out
  unfolding finish_args
  finish_args-Refuses s none out status e =
      refused-Refuses (codes "missing path\n") out status (ground arith) e
  finish_args-Refuses s (some p) out status e = absurd (ground (arith, e))

  extra-Refuses :
      (arg out : Bytes) (status : ℤ) → extra program arg ≡ usage status out → Refuses status out
  unfolding extra
  extra-Refuses arg out status e =
      refused-Refuses (codes "unexpected extra parameter: " ++ (arg ++ b'\n' ∷ [])) out status
        (ground arith) e

  operand_loop-Refuses :
      (s : Bool) (o : Option Bytes) (args : List Bytes) (out : Bytes) (status : ℤ)
      → operand_loop program s o args ≡ usage status out
      → Refuses status out
  unfolding operand_loop
  operand_loop-Refuses s o [] out status e = finish_args-Refuses s o out status e
  operand_loop-Refuses s none (arg ∷ args) out status e =
      operand_loop-Refuses s (some arg) args out status e
  operand_loop-Refuses s (some p) (arg ∷ args) out status e = extra-Refuses arg out status e

  -- With help, status 0 and nothing but the usage text; or refused.
  abbrev pub Ends : List Bytes → ℤ → Bytes → Type 0
  Ends args status out =
      ((asks_help (before args) ≡ true) × (status ≡ pos 0) × (out ≡ usage_text program))
      ⊎ Refuses status out

  later :
      (arg : Bytes) (args : List Bytes) (status : ℤ) (out : Bytes)
      → is_marker arg ≡ false
      → Ends args status out
      → Ends (arg ∷ args) status out
  later arg args status out m (inl (a, b, c)) = inl (ground (arith, m, a), b, c)
  later arg args status out m (inr r) = inr r

  help-asked :
      (arg : Bytes) (args : List Bytes)
      → is_help arg ≡ true
      → asks_help (before (arg ∷ args)) ≡ true
  help-asked arg args h = ground (arith, h, marker-ne-help arg)

  positional :
      (s : Bool) (o : Option Bytes) (arg : Bytes) (args : List Bytes) (out : Bytes) (status : ℤ)
      → is_marker arg ≡ false
      → (option_loop program s (some arg) args ≡ usage status out → Ends args status out)
      → elim o [ none ↦ option_loop program s (some arg) args | some p ↦ extra program arg ]
        ≡ usage status out
      → Ends (arg ∷ args) status out
  positional s none arg args out status m rest e = later arg args status out m (rest e)
  positional s (some p) arg args out status m rest e = inr (extra-Refuses arg out status e)

  option_loop-Ends :
      (s : Bool) (o : Option Bytes) (args : List Bytes) (out : Bytes) (status : ℤ)
      → option_loop program s o args ≡ usage status out
      → Ends args status out
  unfolding option_loop
  option_loop-Ends s o [] out status e = inr (finish_args-Refuses s o out status e)
  option_loop-Ends s o (arg ∷ args) out status e =
      let flagged = option_loop-Ends true o args out status in
      let stored = option_loop-Ends s (some arg) args out status in
      either_way (is_help arg) _ _
        (λ h f. inl (help-asked arg args h, ground (arith, f), ground (arith, f)))
        (λ _.
          either_way (is_marker arg) _ _ (λ _ f. inr (operand_loop-Refuses s o args out status f))
            (λ m.
              either_way (is_system arg) _ _ (λ _ f. later arg args status out m (flagged f))
                (λ _.
                  either_way (starts_with_dash arg) _ _
                    (λ _ f. inr (
                      refused-Refuses (codes "unexpected option: " ++ (arg ++ b'\n' ∷ [])) out
                        status (ground arith) f))
                    (λ _. positional s o arg args out status m stored))))
        e

  -- A command line that does not start the daemon ends it in one of two ways: with status 0 and the usage
  -- text alone, and then help was asked for before any `--`; or with status 1 and the usage text behind
  -- a reason.
  pub parse_args-Ends :
      (args : List Bytes) (status : ℤ) (out : Bytes)
      → parse_args (program ∷ args) ≡ ok (usage status out)
      → Ends args status out
  unfolding parse_args
  parse_args-Ends args status out e =
      option_loop-Ends false none args out status (ground (arith, e))
