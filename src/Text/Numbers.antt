-- ===== src/Text/Numbers.antt =====
-- Numbers written by to_string and by std::hex are read back by strtoul and by `scan`.
use native.Mathlib.Nat.{mod-lt, div-lt_self, div-add-mod'}
use watched_agent.Base.{
  length, append-nil, false, ℕ, zero, suc, ◌+◌, ◌*◌, ◌/◌, ◌%◌, ◌^◌, ◌≤◌, ◌<◌, false, [], ◌∷◌, ◌++◌,
  ltb, Str, ◌≡◌, refl, ◌≢◌, arith, All, Bool-cases, inl, inr, ◌⊎◌, ◌∙◌, ap,
}
use watched_agent.Text.{
  clip, digit_val, digit, digits, to_string, to_hex, scan, skip_space, sign, skip_0x, strtoul10,
  strtoul16,
}

-- A byte that `digits` writes: 0 to 9 or a to f.
abbrev pub IsDigit : ℕ → Type 0
IsDigit c = (48 ≤ c) × (c ≤ 102) × (c ≢ 58) × (c ≢ 88)

-- The text does not go on with a digit of the base.
abbrev pub Ends : ℕ → Str → Type 0
Ends base [] = Unit
Ends base (c ∷ s) = ltb (digit_val c) base ≡ false

pub digit_val-digit : (d : ℕ) → d < 16 → digit_val (digit d) ≡ d
unfolding digit_val digit
digit_val-digit d h = ground arith

digit-IsDigit : (d : ℕ) → d < 16 → IsDigit (digit d)
unfolding digit
digit-IsDigit d h = ground arith

scan-Ends : (base n : ℕ) (s : Str) → Ends base s → scan base n s ≡ (n, s)
unfolding scan
scan-Ends base n [] h = refl
scan-Ends base n (c ∷ s) h = ground arith

module _ (base : ℕ) (two : 2 ≤ base) (small : base ≤ 16) where
  scan-digit :
      (d n : ℕ) (s : Str) → d < base → scan base n (digit d ∷ s) ≡ scan base (n * base + d) s
  unfolding scan
  scan-digit d n s h = ground (arith, digit_val-digit d)

  -- Reading the digits of `n` gives `n`, and goes on in the text behind them.
  scan-digits : (f n : ℕ) (out : Str) → n < f → scan base 0 (digits base f n out) ≡ scan base n out
  unfolding digits
  scan-digits zero n out h = absurd (omega arith)
  scan-digits (suc f) n out h = elim (Bool-cases (ltb n base)) [
    | inl less ↦ ground (arith, scan-digit n 0 out)
    | inr more ↦ ground (
      arith,
      scan-digits f (n / base) (digit (n % base) ∷ out),
      scan-digit (n % base) (n / base) out,
      mod-lt n {m = base},
      div-lt_self {n = n} {k = base},
      div-add-mod' n base,
    )
  ]

  digits-append :
      (f n : ℕ) (out rest : Str) → digits base f n out ++ rest ≡ digits base f n (out ++ rest)
  unfolding digits
  digits-append zero n out rest = refl
  digits-append (suc f) n out rest =
      ground (arith, digits-append f (n / base) (digit (n % base) ∷ out) rest)

  digits-All :
      (P : ℕ → Type 0) (each : (d : ℕ) → d < base → P (digit d)) (f n : ℕ) (out : Str)
      → All P out
      → All P (digits base f n out)
  unfolding digits
  digits-All P each zero n out h = h
  digits-All P each (suc f) n out h = elim (Bool-cases (ltb n base)) [
    | inl less ↦ rw less (each n (ground arith), h)
    | inr more ↦ rw more (
        digits-All P each f (n / base) (digit (n % base) ∷ out)
          (each (n % base) (mod-lt n (omega arith)), h))
  ]

  length-digits : (f n : ℕ) (out : Str) → length (digits base f n out) ≤ f + length out
  unfolding digits
  length-digits zero n out = omega arith
  length-digits (suc f) n out = ground (arith, length-digits f (n / base) (digit (n % base) ∷ out))

  digits-ne-nil : (f n : ℕ) (out : Str) → (0 < f) ⊎ (out ≢ []) → digits base f n out ≢ []
  unfolding digits
  digits-ne-nil zero n out (inl h) = absurd (omega arith)
  digits-ne-nil zero n out (inr h) = h
  digits-ne-nil (suc f) n out h =
      ground (arith, digits-ne-nil f (n / base) (digit (n % base) ∷ out))

pub to_string-All : (n : ℕ) → All IsDigit (to_string n)
unfolding to_string
to_string-All n =
    digits-All 10 (omega arith) (omega arith) IsDigit (λ d h. digit-IsDigit d (omega arith)) (suc n)
      n [] tt

pub to_hex-All : (n : ℕ) → All IsDigit (to_hex n)
unfolding to_hex
to_hex-All n = digits-All 16 (omega arith) (omega arith) IsDigit digit-IsDigit (suc n) n [] tt

-- A decimal digit.
abbrev pub IsDecimal : ℕ → Type 0
IsDecimal c = (48 ≤ c) × (c ≤ 57)

digit-IsDecimal : (d : ℕ) → d < 10 → IsDecimal (digit d)
unfolding digit
digit-IsDecimal d h = ground arith

pub to_string-IsDecimal : (n : ℕ) → All IsDecimal (to_string n)
unfolding to_string
to_string-IsDecimal n =
    digits-All 10 (omega arith) (omega arith) IsDecimal digit-IsDecimal (suc n) n [] tt

pub length-to_string : (n : ℕ) → length (to_string n) ≤ n + 1
unfolding to_string
length-to_string n = omega (arith, length-digits 10 (omega arith) (omega arith) (suc n) n [])

pub length-to_hex : (n : ℕ) → length (to_hex n) ≤ n + 1
unfolding to_hex
length-to_hex n = omega (arith, length-digits 16 (omega arith) (omega arith) (suc n) n [])

pub to_string-ne-nil : (n : ℕ) → to_string n ≢ []
unfolding to_string
to_string-ne-nil n = digits-ne-nil 10 (omega arith) (omega arith) (suc n) n [] (inl (omega arith))

to_hex-ne-nil : (n : ℕ) → to_hex n ≢ []
unfolding to_hex
to_hex-ne-nil n = digits-ne-nil 16 (omega arith) (omega arith) (suc n) n [] (inl (omega arith))

pub scan-to_string :
    (n : ℕ) (rest : Str) → Ends 10 rest → scan 10 0 (to_string n ++ rest) ≡ (n, rest)
unfolding to_string
scan-to_string n rest h =
    ap (scan 10 0) (digits-append 10 (omega arith) (omega arith) (suc n) n [] rest)
    ∙ scan-digits 10 (omega arith) (omega arith) (suc n) n rest (omega arith)
    ∙ scan-Ends 10 n rest h

scan-to_hex : (n : ℕ) (rest : Str) → Ends 16 rest → scan 16 0 (to_hex n ++ rest) ≡ (n, rest)
unfolding to_hex
scan-to_hex n rest h =
    ap (scan 16 0) (digits-append 16 (omega arith) (omega arith) (suc n) n [] rest)
    ∙ scan-digits 16 (omega arith) (omega arith) (suc n) n rest (omega arith)
    ∙ scan-Ends 16 n rest h

-- In front of digits nothing is skipped.
pub skip_space_digits : (s rest : Str) → s ≢ [] → All IsDigit s → skip_space (s ++ rest) ≡ s ++ rest
unfolding skip_space
skip_space_digits [] rest h a = absurd (h refl)
skip_space_digits (c ∷ s) rest h a = ground arith

pub sign_digits : (s rest : Str) → s ≢ [] → All IsDigit s → sign (s ++ rest) ≡ (false, s ++ rest)
unfolding sign
sign_digits [] rest h a = absurd (h refl)
sign_digits (c ∷ s) rest h a = ground arith

-- Neither a digit nor the x of a prefix follows.
abbrev pub Stops : Str → Type 0
Stops [] = Unit
Stops (c ∷ s) = c ≡ 58

Stops-Ends : (s : Str) → Stops s → Ends 16 s × Ends 10 s
unfolding digit_val
Stops-Ends [] h = (tt, tt)
Stops-Ends (c ∷ s) h = ground arith

skip_0x_digits :
    (s rest : Str) → s ≢ [] → All IsDigit s → Stops rest → skip_0x (s ++ rest) ≡ s ++ rest
unfolding skip_0x
skip_0x_digits [] rest h a st = absurd (h refl)
skip_0x_digits (a ∷ []) [] h al st = refl
skip_0x_digits (a ∷ []) (b ∷ []) h al st = refl
skip_0x_digits (a ∷ []) (b ∷ c ∷ t) h al st = ground arith
skip_0x_digits (a ∷ b ∷ []) [] h al st = refl
skip_0x_digits (a ∷ b ∷ []) (c ∷ t) h al st = ground arith
skip_0x_digits (a ∷ b ∷ c ∷ s) rest h al st = ground arith

-- strtoul reads back what to_string wrote, when the end of the text or a colon follows.
pub strtoul10-to_string :
    (n : ℕ) (rest : Str) → n < 2 ^ 64 → Stops rest → strtoul10 (to_string n ++ rest) ≡ n
unfolding strtoul10
strtoul10-to_string n rest h e =
    rw
      (
        strtoul10,
        skip_space_digits (to_string n) rest (to_string-ne-nil n) (to_string-All n),
        sign_digits (to_string n) rest (to_string-ne-nil n) (to_string-All n),
        scan-to_string n rest (Stops-Ends rest e).1,
      )
      (ground arith)

-- In base 16 it reads back what std::hex wrote.
pub strtoul16-to_hex :
    (n : ℕ) (rest : Str) → n < 2 ^ 64 → Stops rest → strtoul16 (to_hex n ++ rest) ≡ n
unfolding strtoul16
strtoul16-to_hex n rest h e =
    rw
      (
        strtoul16,
        skip_space_digits (to_hex n) rest (to_hex-ne-nil n) (to_hex-All n),
        sign_digits (to_hex n) rest (to_hex-ne-nil n) (to_hex-All n),
        skip_0x_digits (to_hex n) rest (to_hex-ne-nil n) (to_hex-All n) e,
        scan-to_hex n rest (Stops-Ends rest e).0,
      )
      (ground arith)

-- On a text of digits strtoul has no white space, sign or prefix to skip.
pub strtoul16_digits : (s : Str) → s ≢ [] → All IsDigit s → strtoul16 s ≡ clip false (scan 16 0 s).0
unfolding strtoul16
strtoul16_digits s h a =
    let e : s ++ [] ≡ s = append-nil s in
    rw (
      strtoul16,
      (rw e at (skip_space_digits s [] h a)),
      (rw e at (sign_digits s [] h a)),
      (rw e at (skip_0x_digits s [] h a tt)),
    )
