-- ===== src/Text/Find.antt =====
-- Where find and rfind stop, and what substr then cuts out.
use watched_agent.Text.Numbers.{IsDigit}
use watched_agent.Base.{
  ◌⊎◌, inl, inr, Bool-cases, ==_iff, ap, suc, take, drop, All-append, ℕ, ◌+◌, ◌-◌, ◌^◌, ◌≤◌, ◌<◌,
  ◌==◌, ◌≡◌, ◌≢◌, refl, [], ◌∷◌, ◌++◌, some, arith, Str, All, length, take-append, take_all,
  length-append, if◌then◌else◌, drop-append,
}
use watched_agent.Text.{
  find_char_at, find_from, find_char, rfind_from, rfind_char, substr, add_size, sub_size, npos,
}

-- No byte of the text is `c`.
abbrev pub Lacks : ℕ → Str → Type 0
Lacks c = All (λ d. d ≢ c)

find_from-append :
    (c i : ℕ) (xs ys : Str) → Lacks c xs → find_from c i (xs ++ c ∷ ys) ≡ i + length xs
unfolding find_from
find_from-append c i [] ys h = ground arith
find_from-append c i (x ∷ xs) ys h = ground (arith, find_from-append c (i + 1) xs ys)

-- find gives the first occurrence.
pub find_char-append : (c : ℕ) (xs ys : Str) → Lacks c xs → find_char c (xs ++ c ∷ ys) ≡ length xs
unfolding find_char
find_char-append c xs ys h = omega (arith, find_from-append c 0 xs ys h)

pub rfind_from-Lacks : (c i found : ℕ) (xs : Str) → Lacks c xs → rfind_from c i found xs ≡ found
unfolding rfind_from
rfind_from-Lacks c i found [] h = refl
rfind_from-Lacks c i found (x ∷ xs) h = ground (arith, rfind_from-Lacks c (i + 1) found xs)

rfind_from-append :
    (c i found : ℕ) (xs ys : Str) → Lacks c ys → rfind_from c i found (xs ++ c ∷ ys) ≡ i + length xs
unfolding rfind_from
rfind_from-append c i found [] ys h = ground (arith, rfind_from-Lacks c (i + 1) i ys h)
rfind_from-append c i found (x ∷ xs) ys h =
    ground (arith, rfind_from-append c (i + 1) (if x == c then i else found) xs ys h)

-- rfind gives the last occurrence.
pub rfind_char-append : (c : ℕ) (xs ys : Str) → Lacks c ys → rfind_char c (xs ++ c ∷ ys) ≡ length xs
unfolding rfind_char
rfind_char-append c xs ys h = omega (arith, rfind_from-append c 0 npos xs ys h)

pub substr-append : (xs ys zs : Str) → substr (xs ++ (ys ++ zs)) (length xs) (length ys) ≡ some ys
unfolding substr
substr-append xs ys zs =
    ground (arith, drop-append xs (ys ++ zs), take-append ys zs, length-append xs (ys ++ zs))

pub substr_tail : (xs ys : Str) (n : ℕ) → length ys ≤ n → substr (xs ++ ys) (length xs) n ≡ some ys
unfolding substr
substr_tail xs ys n h = ground (arith, drop-append xs ys, take_all n ys h, length-append xs ys)

pub add_size-eq : (a b : ℕ) → a + b < 2 ^ 64 → add_size a b ≡ a + b
unfolding add_size
add_size-eq a b h = omega arith

pub sub_size-eq : (a b : ℕ) → b ≤ a → a < 2 ^ 64 → sub_size a b ≡ a - b
unfolding sub_size
sub_size-eq a b h k = omega arith

pub Lacks-append : (c : ℕ) (xs ys : Str) → Lacks c xs → Lacks c ys → Lacks c (xs ++ ys)
Lacks-append c xs ys = All-append (λ d. d ≢ c) xs ys

pub drop_behind : (c : ℕ) (xs ys : Str) → drop (length xs + 1) (xs ++ c ∷ ys) ≡ ys
drop_behind c [] ys = ground arith
drop_behind c (x ∷ xs) ys = ground (arith, drop_behind c xs ys)

take-append_more : (k : ℕ) (xs ys : Str) → take (length xs + k) (xs ++ ys) ≡ xs ++ take k ys
take-append_more k [] ys = ground arith
take-append_more k (x ∷ xs) ys =
    let e : suc (length xs) + k ≡ suc (length xs + k) = omega arith in
    rw e (ap (◌∷◌ x) (take-append_more k xs ys))

-- substr from the place behind a byte.
pub substr_behind :
    (c : ℕ) (xs ys : Str) (n : ℕ) → substr (xs ++ c ∷ ys) (length xs + 1) n ≡ some (take n ys)
unfolding substr
substr_behind c xs ys n = ground (arith, drop_behind c xs ys, length-append xs (c ∷ ys))

-- find from the place behind a byte.
pub find_char_at-append :
    (c d : ℕ) (xs ys zs : Str)
    → Lacks c ys
    → find_char_at c (xs ++ d ∷ (ys ++ c ∷ zs)) (length xs + 1) ≡ length xs + 1 + length ys
unfolding find_char_at
find_char_at-append c d xs ys zs h =
    rw (drop_behind d xs (ys ++ c ∷ zs)) (find_from-append c (length xs + 1) ys zs h)

pub take-append_stop :
    (c k : ℕ) (xs ys : Str) → take (k + 1 + length xs) (xs ++ c ∷ ys) ≡ xs ++ c ∷ take k ys
take-append_stop c k xs ys = ground (arith, take-append_more (suc k) xs (c ∷ ys))

pub Lacks-IsDigit : (xs : Str) → All IsDigit xs → Lacks b':' xs
Lacks-IsDigit [] h = tt
Lacks-IsDigit (x ∷ xs) h = (omega arith, Lacks-IsDigit xs h.1)

-- A text has no `c`, or it has a last one.
pub Lacks-or_last :
    (c : ℕ) (s : Str)
    → Lacks c s ⊎ ((front : Str) × (back : Str) × (s ≡ front ++ c ∷ back) × Lacks c back)
Lacks-or_last c [] = inl tt
Lacks-or_last c (d ∷ s) = elim (Lacks-or_last c s) [
  | inr (front, back, e, h) ↦ inr (d ∷ front, back, ap (◌∷◌ d) e, h)
  | inl h ↦ elim (Bool-cases (d == c)) [
    | inl e ↦ inr ([], s, ap (λ x. x ∷ s) ((==_iff d c).0 e), h)
    | inr e ↦ inl (λ q. ground (arith, e, q), h)
  ]
]

-- npos + 1 wraps around to the begin of the text.
pub add_size-npos : add_size npos 1 ≡ 0
unfolding add_size
add_size-npos = refl
