-- ===== src/Server/Tags.antt =====
-- The tag of a content tells digests apart, and when a client's copy is taken as current.
use native.Mathlib.Nat.{div-add-mod'}
use watched_agent.Text.{digit, digits, to_hex, digit_val}
use watched_agent.Text.Numbers.{digit_val-digit}
use watched_agent.Base.{
  true, ℕ, zero, suc, ◌/◌, ◌%◌, ◌<◌, Bool, List, [], ◌∷◌, ◌++◌, Option, some, Str, length, ◌≡◌, ◌≢◌,
  ◌↔◌, refl, sym, ap, arith, All, Bool-cases, inl, inr, ◌∙◌, ltb, str_eq, str_eq_iff, if◌then◌else◌,
}
use watched_agent.Server.{
  Files, good, not_modified, found, hex_byte, hex_text, quote, is_known, sha256, answer,
  resource_send, buffer_size, send_file, try_static, get_static, resolve,
}

-- A list of bytes.
abbrev Bytes : List ℕ → Type 0
Bytes = All (λ b. b < 256)

digit-injective : (a b : ℕ) → a < 16 → b < 16 → digit a ≡ digit b → a ≡ b
digit-injective a b h k e = sym (digit_val-digit a h) ∙ (ap digit_val e ∙ digit_val-digit b k)

digits_last : (f n : ℕ) (out : Str) → n < 16 → 0 < f → digits 16 f n out ≡ digit n ∷ out
unfolding digits
digits_last zero n out h k = absurd (omega arith)
digits_last (suc f) n out h k = ground arith

small_digit : (b : ℕ) → b < 16 → b'0' ∷ digit b ∷ [] ≡ digit (b / 16) ∷ digit (b % 16) ∷ []
unfolding digit
small_digit b h =
    let q : b / 16 ≡ 0 = omega arith in let r : b % 16 ≡ b = omega arith in rw (q, r) refl

-- A byte is two digits.
hex_byte-digits : (b : ℕ) → b < 256 → hex_byte b ≡ digit (b / 16) ∷ digit (b % 16) ∷ []
unfolding hex_byte to_hex digits
hex_byte-digits b h = elim (Bool-cases (ltb b 16)) [
  | inl e ↦ rw (hex_byte, to_hex, digits, e) (small_digit b (ground arith))
  | inr e ↦
      rw
        (
          hex_byte,
          to_hex,
          digits,
          e,
          digits_last b (b / 16) (digit (b % 16) ∷ []) (omega arith) (ground arith),
        )
        refl
]

hex_byte-injective :
    (a b : ℕ) (s t : Str)
    → a < 256
    → b < 256
    → hex_byte a ++ s ≡ hex_byte b ++ t
    → (a ≡ b) × (s ≡ t)
hex_byte-injective a b s t h k e =
    let e' = rw (hex_byte-digits a h, hex_byte-digits b k) at e in
    let q = digit-injective (a / 16) (b / 16) (omega arith) (omega arith) in
    let r = digit-injective (a % 16) (b % 16) (omega arith) (omega arith) in
    ground (arith, e', q, r, div-add-mod' a 16, div-add-mod' b 16)

hex_byte-ne-nil : (a : ℕ) (s : Str) → a < 256 → hex_byte a ++ s ≢ []
hex_byte-ne-nil a s h e = let e' = rw (hex_byte-digits a h) at e in ground (arith, e')

-- Different digests have different texts.
hex_text-injective : (xs ys : List ℕ) → Bytes xs → Bytes ys → hex_text xs ≡ hex_text ys → xs ≡ ys
unfolding hex_text
hex_text-injective [] [] h k e = refl
hex_text-injective [] (y ∷ ys) h k e = absurd (hex_byte-ne-nil y (hex_text ys) k.0 (sym e))
hex_text-injective (x ∷ xs) [] h k e = absurd (hex_byte-ne-nil x (hex_text xs) h.0 e)
hex_text-injective (x ∷ xs) (y ∷ ys) h k e =
    let p = hex_byte-injective x y (hex_text xs) (hex_text ys) h.0 k.0 e in
    let q = hex_text-injective xs ys h.1 k.1 p.1 in ground (arith, p.0, q)

snoc-ne-nil : (s : Str) (c : ℕ) → s ++ c ∷ [] ≢ []
snoc-ne-nil [] c e = ground (arith, e)
snoc-ne-nil (x ∷ s) c e = ground (arith, e)

snoc-injective : (s t : Str) (c : ℕ) → s ++ c ∷ [] ≡ t ++ c ∷ [] → s ≡ t
snoc-injective [] [] c e = refl
snoc-injective [] (y ∷ t) c e = ground (arith, e, snoc-ne-nil t c)
snoc-injective (x ∷ s) [] c e = ground (arith, e, snoc-ne-nil s c)
snoc-injective (x ∷ s) (y ∷ t) c e = ground (arith, e, snoc-injective s t c)

quote-injective : (s t : Str) → quote s ≡ quote t → s ≡ t
unfolding quote
quote-injective s t e = snoc-injective s t b'"' (ground (arith, e))

answer-reads :
    (files : Files) (breaks : ℕ → Bool) (tag : Option Str) (p bytes : Str)
    → files.content p ≡ some bytes
    → files.reads p ≡ true
    → answer files breaks tag p ≡ (
        if is_known tag (hex_text (files.digest bytes))
        then good (not_modified (hex_text (files.digest bytes)))
        else good (
            found
              (hex_text (files.digest bytes))
              (length bytes)
              (resource_send breaks 0 (suc (length bytes)) buffer_size bytes)))
unfolding answer sha256 send_file
answer-reads files breaks tag p bytes holds read =
    let sent : send_file files breaks p (hex_text (files.digest bytes))
        ≡ good (
            found (hex_text (files.digest bytes)) (length bytes)
              (resource_send breaks 0 (suc (length bytes)) buffer_size bytes)) =
      rw (send_file, holds) refl in
    rw (answer, sha256, holds, read, sent) refl

-- A client that sends the tag of an earlier content gets a 304 exactly when the digest of what
-- the file now holds is the digest of that content, when it is there and sha256 can read it.
get_static-cached :
    (files : Files) (breaks : ℕ → Bool) (root path p : Str) (old bytes : Str)
    → resolve files root path ≡ good p
    → files.content p ≡ some bytes
    → files.reads p ≡ true
    → Bytes (files.digest old)
    → Bytes (files.digest bytes)
    → (get_static files breaks root (some (quote (hex_text (files.digest old)))) path
        ≡ not_modified (hex_text (files.digest bytes)))
      ↔ (files.digest old ≡ files.digest bytes)
unfolding get_static try_static is_known
get_static-cached files breaks root path p old bytes at holds read ho hb =
    let now = hex_text (files.digest bytes) in
    let past = hex_text (files.digest old) in
    let reads = answer-reads files breaks (some (quote past)) p bytes holds read in
    let same = str_eq_iff (quote past) (quote now) in
    let back = hex_text-injective (files.digest old) (files.digest bytes) ho hb in
    elim (Bool-cases (str_eq (quote past) (quote now))) [
      | inl e ↦ (
        λ r. back (quote-injective past now (same.0 e)),
        λ d. rw (get_static, try_static, at, reads, e) refl,
      )
      | inr e ↦ (
        λ r. ground (arith, rw (get_static, try_static, at, reads, e) at r),
        λ d. ground (arith, e, same.1 (ap (λ x. quote (hex_text x)) d)),
      )
    ]
