-- ===== src/Text.antt =====
-- The operations of std::string, of the C library and of the streams that the agent's parsers use.
pub mod Numbers
pub mod Find
use watched_agent.Base.{
  ℕ, zero, suc, ◌+◌, ◌-◌, ◌*◌, ◌/◌, ◌%◌, ◌^◌, Bool, true, false, ◌&&◌, ◌||◌, [], ◌∷◌, Option, none,
  some, ltb, leb, ◌==◌, if◌then◌else◌, Str, length, take, drop, ◌≡◌, refl, codes,
}

-- std::string::npos.
abbrev pub npos : ℕ
npos = 2 ^ 64 - 1

-- a + b on size_t.
unfoldable pub add_size : ℕ → ℕ → ℕ
add_size a b = (a + b) % 2 ^ 64

-- a - b on size_t.
unfoldable pub sub_size : ℕ → ℕ → ℕ
sub_size a b = (a + 2 ^ 64 - b) % 2 ^ 64

-- The position of the first `c` at or after `i`, where `s` begins at position `i`.
unfoldable pub find_from : ℕ → ℕ → Str → ℕ
find_from c i [] = npos
find_from c i (d ∷ s) = if d == c then i else find_from c (i + 1) s

-- s.find(c)
unfoldable pub find_char : ℕ → Str → ℕ
find_char c s = find_from c 0 s

-- s.find(c, pos)
unfoldable pub find_char_at : ℕ → Str → ℕ → ℕ
find_char_at c s pos = find_from c pos (drop pos s)

unfoldable pub rfind_from : ℕ → ℕ → ℕ → Str → ℕ
rfind_from c i found [] = found
rfind_from c i found (d ∷ s) = rfind_from c (i + 1) (if d == c then i else found) s

-- s.rfind(c)
unfoldable pub rfind_char : ℕ → Str → ℕ
unfolding rfind_from
rfind_char c s = rfind_from c 0 npos s

-- s.substr(pos, n); `none` is the exception std::out_of_range.
unfoldable pub substr : Str → ℕ → ℕ → Option Str
substr s pos n = if ltb (length s) pos then none else some (take n (drop pos s))

-- The digit that a byte stands for, 255 for any other byte.
unfoldable pub digit_val : ℕ → ℕ
digit_val c =
    if leb 48 c && leb c 57
    then c - 48
    else if leb 97 c && leb c 122
    then c - 87
    else if leb 65 c && leb c 90
    then c - 55
    else 255

-- The byte of a digit below sixteen.
unfoldable pub digit : ℕ → ℕ
digit d = if ltb d 10 then d + 48 else d + 87

unfoldable pub digits : ℕ → ℕ → ℕ → Str → Str
digits base zero n out = out
digits base (suc f) n out =
    let more = digits base f (n / base) (digit (n % base) ∷ out) in
    if ltb n base then digit n ∷ out else more

-- std::to_string of an unsigned number, and a stream's print of it under std::hex.
unfoldable pub to_string : ℕ → Str
unfolding digits digit
to_string n = digits 10 (suc n) n []

unfoldable pub to_hex : ℕ → Str
unfolding digits digit
to_hex n = digits 16 (suc n) n []

-- The number that the leading digits of a text spell behind `n`, and the text after them.
unfoldable pub scan : ℕ → ℕ → Str → ℕ × Str
unfolding digit_val
scan base n [] = (n, [])
scan base n (c ∷ s) =
    let rest = scan base (n * base + digit_val c) s in
    if ltb (digit_val c) base then rest else (n, c ∷ s)

unfoldable pub is_space : ℕ → Bool
is_space c = c == 32 || (leb 9 c && leb c 13)

unfoldable pub skip_space : Str → Str
unfolding is_space
skip_space [] = []
skip_space (c ∷ s) = if is_space c then skip_space s else c ∷ s

-- A sign in front of a number: whether it is a minus, and the text after it.
unfoldable pub sign : Str → Bool × Str
sign [] = (false, [])
sign (c ∷ s) = if c == b'-' then (true, s) else if c == b'+' then (false, s) else (false, c ∷ s)

-- The optional prefix 0x, which strtoul skips in base 16 if a digit follows.
unfoldable pub skip_0x : Str → Str
unfolding digit_val
skip_0x (a ∷ b ∷ c ∷ s) =
    if (a == b'0') && ((b == b'x' || b == b'X') && ltb (digit_val c) 16)
    then c ∷ s
    else a ∷ b ∷ c ∷ s
skip_0x s = s

-- The value of strtoul, with 64-bit unsigned long: out of range is ULONG_MAX, a minus negates.
abbrev pub clip : Bool → ℕ → ℕ
clip minus n = if leb (2 ^ 64) n then 2 ^ 64 - 1 else if minus then (2 ^ 64 - n) % 2 ^ 64 else n

unfoldable pub strtoul10 : Str → ℕ
unfolding scan skip_space sign
strtoul10 s = let (minus, t) = sign (skip_space s) in clip minus (scan 10 0 t).0

unfoldable pub strtoul16 : Str → ℕ
unfolding scan skip_space sign skip_0x
strtoul16 s = let (minus, t) = sign (skip_space s) in clip minus (scan 16 0 (skip_0x t)).0
