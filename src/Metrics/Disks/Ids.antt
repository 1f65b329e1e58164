-- ===== src/Metrics/Disks/Ids.antt =====
-- The ID of a directory tells it apart from every other.
use native.Mathlib.Nat.{div-add-mod'}
use watched_agent.Base.{
  ℕ, ◌+◌, ◌-◌, ◌*◌, ◌/◌, ◌%◌, ◌<◌, true, false, [], ◌∷◌, Str, ltb, ◌==◌, if◌then◌else◌, ◌≡◌, refl,
  ap, arith, All, Bool-cases, inl, inr,
}
use watched_agent.Metrics.Loads.{is_kept, upper_hex, url_encode}

-- The number that a byte of upper_hex stands for.
hex_digit : ℕ → ℕ
hex_digit c = if ltb c 58 then c - 48 else c - 55

-- The text whose percent-encoding is `s`.
pub url_decode : Str → Str
url_decode [] = []
url_decode (c ∷ []) = c ∷ []
url_decode (c ∷ a ∷ []) = c ∷ a ∷ []
url_decode (c ∷ a ∷ b ∷ s) =
    let plain = url_decode (a ∷ b ∷ s) in
    let coded = url_decode s in
    if c == b'%' then (hex_digit a * 16 + hex_digit b) ∷ coded else c ∷ plain

hex_digit-upper_hex : (d : ℕ) → d < 16 → hex_digit (upper_hex d) ≡ d
unfolding hex_digit upper_hex
hex_digit-upper_hex d h = ground arith

url_decode-plain : (c : ℕ) (s : Str) → (c == b'%') ≡ false → url_decode (c ∷ s) ≡ c ∷ url_decode s
unfolding url_decode
url_decode-plain c [] h = refl
url_decode-plain c (a ∷ []) h = refl
url_decode-plain c (a ∷ b ∷ s) h = rw h refl

url_decode-coded :
    (c : ℕ) (s : Str)
    → c < 256
    → url_decode (b'%' ∷ upper_hex (c / 16) ∷ upper_hex (c % 16) ∷ s) ≡ c ∷ url_decode s
unfolding url_decode
url_decode-coded c s h =
    let high = hex_digit-upper_hex (c / 16) (omega arith) in
    let low = hex_digit-upper_hex (c % 16) (omega arith) in
    let sum : c / 16 * 16 + c % 16 ≡ c = omega (arith, div-add-mod' c 16) in
    rw (high, low, sum) refl

kept_plain : (c : ℕ) → is_kept c ≡ true → (c == b'%') ≡ false
unfolding is_kept
kept_plain c h = ground arith

url_decode_nil : url_decode [] ≡ []
unfolding url_decode
url_decode_nil = refl

-- The decoding of the coded IDs gives a text of bytes back.
url_decode-url_encode : (s : Str) → All (λ c. c < 256) s → url_decode (url_encode s) ≡ s
unfolding url_encode
url_decode-url_encode [] h = url_decode_nil
url_decode-url_encode (c ∷ s) h = elim (Bool-cases (is_kept c)) [
  | inl k ↦
      rw (url_encode, k, url_decode-plain c (url_encode s) (kept_plain c k))
        (ap (◌∷◌ c) (url_decode-url_encode s h.1))
  | inr k ↦
      rw (url_encode, k, url_decode-coded c (url_encode s) h.0)
        (ap (◌∷◌ c) (url_decode-url_encode s h.1))
]
