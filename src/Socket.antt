-- ===== src/Socket.antt =====
-- Class socket of src/services.cpp and include/services.h.
pub mod Proc
pub mod Url
use watched_agent.Base.{
  ℕ, suc, ◌+◌, ◌-◌, ◌%◌, ◌^◌, Bool, true, false, ◌&&◌, ◌||◌, List, [], ◌∷◌, ◌++◌, Option, none,
  some, ◌<◌, ltb, leb, ◌==◌, if◌then◌else◌, Str, length, ◌≡◌, refl, codes, str_eq, ◌>>=◌,
}
use watched_agent.Text.{
  npos, add_size, sub_size, find_from, find_char, find_char_at, rfind_char, substr, digit_val, scan,
  is_space, skip_space, sign, strtoul10, strtoul16, to_string, to_hex,
}

pub record SockAddr : Type 0 where
  pub port : ℕ
  pub ip1 : ℕ
  pub ip2 : ℕ
  pub ip3 : ℕ
  pub ip4 : ℕ
  pub ip5 : ℕ
  pub ip6 : ℕ
  pub ip7 : ℕ
  pub ip8 : ℕ

-- The members hold values of their types: a port below 2^16 and groups of 16 bits.
pub record InRange (a : SockAddr) : Type 0 where
  pub port : a.port < 65536
  pub ip1 : a.ip1 < 65536
  pub ip2 : a.ip2 < 65536
  pub ip3 : a.ip3 < 65536
  pub ip4 : a.ip4 < 65536
  pub ip5 : a.ip5 < 65536
  pub ip6 : a.ip6 < 65536
  pub ip7 : a.ip7 < 65536
  pub ip8 : a.ip8 < 65536

pub record Socket : Type 0 where
  pub id : ℕ
  pub type : Str
  pub source : SockAddr
  pub dest : SockAddr

abbrev pub u16 : ℕ → ℕ
u16 n = n % 2 ^ 16

abbrev pub u32 : ℕ → ℕ
u32 n = n % 2 ^ 32

-- type == "tcp" || type == "udp"
unfoldable pub is_v4 : Str → Bool
unfolding str_eq
is_v4 type = str_eq type (codes "tcp") || str_eq type (codes "udp")

-- socket::setSockFrom, over the memory that the address had before. `none` is std::out_of_range.
unfoldable pub set_sock_from : Str → SockAddr → Option SockAddr
set_sock_from src sa = do
  port ← substr src (add_size (find_char b':' src) 1) (length src)
  a ← substr src 0 2
  b ← substr src 2 2
  c ← substr src 4 2
  d ← substr src 6 2
  some (record sa {
    port = u32 (strtoul16 port);
    ip4 = u16 (strtoul16 a);
    ip3 = u16 (strtoul16 b);
    ip2 = u16 (strtoul16 c);
    ip1 = u16 (strtoul16 d);
  })

-- buf = src.substr(p + 2, 2) + src.substr(p, 2), read in base 16.
unfoldable pub swapped_group : Str → ℕ → Option ℕ
swapped_group src p = do
  hi ← substr src (p + 2) 2
  lo ← substr src p 2
  some (u16 (strtoul16 (hi ++ lo)))

-- socket::setSockFrom6
unfoldable pub set_sock_from6 : Str → SockAddr → Option SockAddr
unfolding swapped_group
set_sock_from6 src sa = do
  port ← substr src (add_size (find_char b':' src) 1) (length src)
  g2 ← swapped_group src 0
  g1 ← swapped_group src 4
  g4 ← swapped_group src 8
  g3 ← swapped_group src 12
  g6 ← swapped_group src 16
  g5 ← swapped_group src 20
  g8 ← swapped_group src 24
  g7 ← swapped_group src 28
  some (record {
    port = u32 (strtoul16 port);
    ip1 = g1;
    ip2 = g2;
    ip3 = g3;
    ip4 = g4;
    ip5 = g5;
    ip6 = g6;
    ip7 = g7;
    ip8 = g8;
  })

-- The tokens that istream_iterator<std::string> reads.
unfoldable pub words_from : Str → Str → List Str
unfolding is_space
words_from cur [] = if length cur == 0 then [] else cur ∷ []
words_from cur (c ∷ s) =
    let ended = cur ∷ words_from [] s in
    let skipped = words_from [] s in
    let grown = words_from (cur ++ c ∷ []) s in
    if is_space c then (if length cur == 0 then skipped else ended) else grown

unfoldable pub words : Str → List Str
unfolding words_from
words s = words_from [] s

-- tokens[i]; `none` is a read out of bounds.
unfoldable pub token : List Str → ℕ → Option Str
token [] i = none
token (t ∷ ts) i = if i == 0 then some t else token ts (i - 1)

-- atoi, stored in a uint32_t.
unfoldable pub atoi_u32 : Str → ℕ
unfolding scan skip_space sign
atoi_u32 s =
    let (minus, t) = sign (skip_space s) in
    let n = (scan 10 0 t).0 in
    if minus
    then (2 ^ 64 - (if ltb n (2 ^ 63) then n else 2 ^ 63)) % 2 ^ 32
    else u32 (if ltb n (2 ^ 63) then n else 2 ^ 63 - 1)

-- socket::socket(p_line, p_type): a line of /proc/net/tcp and its siblings. `raw` is the memory of
-- the addresses before.
unfoldable pub from_line : SockAddr → Str → Str → Option Socket
unfolding words token
from_line raw line type = do
  local ← token (words line) 1
  remote ← token (words line) 2
  source ← (if is_v4 type then set_sock_from local raw else set_sock_from6 local raw)
  dest ← (if is_v4 type then set_sock_from remote raw else set_sock_from6 remote raw)
  inode ← token (words line) 9
  some (record { id = atoi_u32 inode; type = type; source = source; dest = dest })

-- A std::istringstream that numbers are extracted from.
pub record Stream : Type 0 where
  pub rest : Str
  pub fail : Bool

unfoldable pub starts_digit : Str → Bool
starts_digit [] = false
starts_digit (c ∷ s) = leb 48 c && leb c 57

unfoldable pub word_u16 : Str → ℕ → ℕ × Stream
unfolding scan sign starts_digit
word_u16 [] old = (old, record { rest = []; fail = true })
word_u16 (c ∷ s) old =
    let (minus, t) = sign (c ∷ s) in
    let (n, u) = scan 10 0 t in
    if starts_digit t
    then (if ltb 65535 n
        then (65535, record { rest = u; fail = true })
        else ((if minus then u16 (2 ^ 16 - n) else n), record { rest = u; fail = false }))
    else (0, record { rest = t; fail = true })

-- in >> x for a uint16_t x that held `old`.
unfoldable pub extract_u16 : Stream → ℕ → ℕ × Stream
extract_u16 s old = if s.fail then (old, s) else word_u16 (skip_space s.rest) old

unfoldable pub next_char : Str → Stream
next_char [] = record { rest = []; fail = true }
next_char (c ∷ s) = record { rest = s; fail = false }

-- in >> dot for a char.
unfoldable pub extract_char : Stream → Stream
unfolding next_char skip_space
extract_char s = if s.fail then s else next_char (skip_space s.rest)

-- s>>source.ip1>>dot>>source.ip2>>dot>>source.ip3>>dot>>source.ip4
unfoldable pub read_v4 : Str → SockAddr → SockAddr
read_v4 ip sa =
    let (a, s1) = extract_u16 (record { rest = ip; fail = false }) sa.ip1 in
    let (b, s2) = extract_u16 (extract_char s1) sa.ip2 in
    let (c, s3) = extract_u16 (extract_char s2) sa.ip3 in
    let (d, s4) = extract_u16 (extract_char s3) sa.ip4 in
    record sa { ip1 = a; ip2 = b; ip3 = c; ip4 = d }

-- One group of an IPv6 text behind the colon at `pos`, and the position of the next colon.
unfoldable pub next_group : Str → ℕ → Option (ℕ × ℕ)
next_group ip pos = do
  let after = find_char_at b':' ip (add_size pos 1)
  text ← substr ip (add_size pos 1) after
  some (u16 (strtoul16 text), after)

-- The IPv6 branch of socket::socket(p_source).
unfoldable pub read_v6 : Str → SockAddr → Option SockAddr
read_v6 ip sa = do
  text ← substr ip 0 (find_char b':' ip)
  (g2, p2) ← next_group ip (find_char b':' ip)
  (g3, p3) ← next_group ip p2
  (g4, p4) ← next_group ip p3
  (g5, p5) ← next_group ip p4
  (g6, p6) ← next_group ip p5
  (g7, p7) ← next_group ip p6
  last ← substr ip (add_size p7 1) npos
  some (record sa {
    ip1 = u16 (strtoul16 text);
    ip2 = g2;
    ip3 = g3;
    ip4 = g4;
    ip5 = g5;
    ip6 = g6;
    ip7 = g7;
    ip8 = u16 (strtoul16 last);
  })

-- socket::socket(p_source): a socket written by get_source. The members that the constructor does
-- not set keep the memory `raw`.
unfoldable pub from_source : Socket → Str → Option Socket
from_source raw src = do
  type ← substr src 0 (find_char b':' src)
  let pos = add_size (find_char b':' src) 3
  port ← substr src (add_size (rfind_char b':' src) 1) npos
  ip ← substr src pos (sub_size (rfind_char b':' src) pos)
  let sa = record raw.source { port = u32 (strtoul10 port) }
  source ← (if is_v4 type then some (read_v4 ip sa) else read_v6 ip sa)
  some (record raw { type = type; source = source })

-- socket::isLoopBack
unfoldable pub is_loop_back : Socket → Bool
unfolding is_v4
is_loop_back s =
    if is_v4 s.type
    then s.source.ip1 == 127 && (s.source.ip2 == 0 && s.source.ip3 == 0)
    else s.source.ip1 == 0
      && (s.source.ip2 == 0
          && (s.source.ip3 == 0
              && (s.source.ip4 == 0
                  && (s.source.ip5 == 0
                      && (s.source.ip6 == 0 && (s.source.ip7 == 0 && s.source.ip8 == 1))))))

-- The host part that socket::getSource writes.
unfoldable pub host_v4 : SockAddr → Str
host_v4 a =
    to_string a.ip1
    ++ b'.' ∷ (to_string a.ip2 ++ b'.' ∷ (to_string a.ip3 ++ b'.' ∷ to_string a.ip4))

unfoldable pub host_v6 : SockAddr → Str
host_v6 a =
    to_hex a.ip1
    ++ b':'
      ∷ (to_hex a.ip2
          ++ b':'
            ∷ (to_hex a.ip3
                ++ b':'
                  ∷ (to_hex a.ip4
                      ++ b':'
                        ∷ (to_hex a.ip5
                            ++ b':'
                              ∷ (to_hex a.ip6 ++ b':' ∷ (to_hex a.ip7 ++ b':' ∷ to_hex a.ip8))))))

-- socket::getSource
unfoldable pub get_source : Socket → Str
get_source s =
    s.type
    ++ (codes "://"
        ++ ((if is_v4 s.type then host_v4 s.source else host_v6 s.source)
            ++ b':' ∷ to_string s.source.port))
