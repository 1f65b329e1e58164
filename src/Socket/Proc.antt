-- ===== src/Socket/Proc.antt =====
-- Lines of /proc/net: what the kernel writes for an address is what set_sock_from reads.
use watched_agent.Base.{
  ℕ, ◌+◌, ◌*◌, ◌/◌, ◌%◌, ◌<◌, ◌≡◌, [], ◌∷◌, ◌++◌, some, arith, ltb, Str, if◌then◌else◌, All, ◌∙◌,
  append-nil, All-append,
}
use watched_agent.Text.{substr, scan, strtoul16, digit_val}
use watched_agent.Text.Find.{Lacks, Lacks-append, find_char-append, add_size-eq}
use watched_agent.Text.Numbers.{strtoul16_digits, IsDigit}
use watched_agent.Socket.{SockAddr, InRange, set_sock_from, set_sock_from6}

-- The digit that the kernel's %X writes.
pub upper_digit : ℕ → ℕ
upper_digit d = if ltb d 10 then d + 48 else d + 55

-- %02X and %04X.
unfoldable pub hex2 : ℕ → Str
hex2 n = upper_digit (n / 16) ∷ upper_digit (n % 16) ∷ []

unfoldable pub hex4 : ℕ → Str
unfolding hex2
hex4 n = hex2 (n / 256) ++ hex2 (n % 256)

-- A 32-bit word of an address, whose bytes in network order are a, b, c and d, as a little-endian
-- kernel writes it.
unfoldable pub proc_word : ℕ → ℕ → ℕ → ℕ → Str
unfolding hex2
proc_word a b c d = hex2 d ++ (hex2 c ++ (hex2 b ++ hex2 a))

digit_val-upper : (d : ℕ) → d < 16 → digit_val (upper_digit d) ≡ d
unfolding digit_val upper_digit
digit_val-upper d h = ground arith

upper-IsDigit : (d : ℕ) → d < 16 → IsDigit (upper_digit d)
unfolding upper_digit
upper-IsDigit d h = ground arith

hex2-All : (n : ℕ) → n < 256 → All IsDigit (hex2 n)
unfolding hex2
hex2-All n h = ground (arith, upper-IsDigit (n / 16), upper-IsDigit (n % 16))

scan-hex2 :
    (m n : ℕ) (rest : Str) → n < 256 → scan 16 m (hex2 n ++ rest) ≡ scan 16 (m * 256 + n) rest
unfolding scan hex2
scan-hex2 m n rest h = ground (arith, digit_val-upper (n / 16), digit_val-upper (n % 16))

strtoul16-hex2 : (n : ℕ) → n < 256 → strtoul16 (hex2 n) ≡ n
unfolding scan
strtoul16-hex2 n h =
    strtoul16_digits (hex2 n) (unfold hex2 in (cc)) (hex2-All n h)
    ∙ ground (arith, scan-hex2 0 n [] h, append-nil (hex2 n))

strtoul16-hex2-hex2 : (m n : ℕ) → m < 256 → n < 256 → strtoul16 (hex2 m ++ hex2 n) ≡ m * 256 + n
unfolding scan
strtoul16-hex2-hex2 m n h k =
    strtoul16_digits (hex2 m ++ hex2 n) (unfold hex2 in (cc))
      (All-append IsDigit (hex2 m) (hex2 n) (hex2-All m h) (hex2-All n k))
    ∙ ground (arith, scan-hex2 0 m (hex2 n) h, scan-hex2 m n [] k, append-nil (hex2 n))

-- The same at the bytes themselves.
strtoul16_pair :
    (n : ℕ) → n < 256 → strtoul16 (upper_digit (n / 16) ∷ upper_digit (n % 16) ∷ []) ≡ n
unfolding hex2
strtoul16_pair = strtoul16-hex2

strtoul16_quad :
    (m n : ℕ)
    → m < 256
    → n < 256
    → strtoul16 (
        upper_digit (m / 16)
        ∷ upper_digit (m % 16)
        ∷ upper_digit (n / 16)
        ∷ upper_digit (n % 16)
        ∷ [])
      ≡ m * 256 + n
unfolding hex2
strtoul16_quad = strtoul16-hex2-hex2

proc_word-Lacks :
    (a b c d : ℕ) → a < 256 → b < 256 → c < 256 → d < 256 → Lacks b':' (proc_word a b c d)
unfolding proc_word
proc_word-Lacks a b c d ha hb hc hd = ground (
  arith,
  upper-IsDigit (a / 16),
  upper-IsDigit (a % 16),
  upper-IsDigit (b / 16),
  upper-IsDigit (b % 16),
  upper-IsDigit (c / 16),
  upper-IsDigit (c % 16),
  upper-IsDigit (d / 16),
  upper-IsDigit (d % 16),
)

-- setSockFrom reads back the IPv4 address and the port that the kernel wrote, for four bytes below
-- 256 and a port below 65536.
set_sock_from-proc :
    (a b c d port : ℕ) (sa : SockAddr)
    → a < 256
    → b < 256
    → c < 256
    → d < 256
    → port < 65536
    → set_sock_from (proc_word a b c d ++ b':' ∷ hex4 port) sa
      ≡ some (record sa { port = port; ip1 = a; ip2 = b; ip3 = c; ip4 = d })
unfolding set_sock_from proc_word substr hex4
set_sock_from-proc a b c d port sa ha hb hc hd hp =
    rw
      (
        find_char-append b':' (proc_word a b c d) (hex4 port) (proc_word-Lacks a b c d ha hb hc hd),
        add_size-eq 8 1 (omega arith),
        strtoul16_pair a ha,
        strtoul16_pair b hb,
        strtoul16_pair c hc,
        strtoul16_pair d hd,
        strtoul16_quad (port / 256) (port % 256) (omega arith) (omega arith),
      )
      (ground arith)

-- Two groups of an IPv6 address in one 32-bit word.
proc_groups : ℕ → ℕ → Str
unfolding proc_word
proc_groups g h = proc_word (g / 256) (g % 256) (h / 256) (h % 256)

unfoldable pub proc_addr6 : SockAddr → Str
unfolding proc_groups
proc_addr6 a =
    proc_groups a.ip1 a.ip2
    ++ (proc_groups a.ip3 a.ip4 ++ (proc_groups a.ip5 a.ip6 ++ proc_groups a.ip7 a.ip8))

proc_groups-Lacks : (g h : ℕ) → g < 65536 → h < 65536 → Lacks b':' (proc_groups g h)
unfolding proc_groups
proc_groups-Lacks g h p q =
    proc_word-Lacks (g / 256) (g % 256) (h / 256) (h % 256) (omega arith) (omega arith)
      (omega arith) (omega arith)

proc_addr6-Lacks : (a : SockAddr) → InRange a → Lacks b':' (proc_addr6 a)
unfolding proc_addr6
proc_addr6-Lacks a r =
    let l7 = proc_groups-Lacks a.ip7 a.ip8 r.ip7 r.ip8 in
    let l5 =
      Lacks-append b':' (proc_groups a.ip5 a.ip6) (proc_groups a.ip7 a.ip8)
        (proc_groups-Lacks a.ip5 a.ip6 r.ip5 r.ip6) l7 in
    let l3 =
      Lacks-append b':' (proc_groups a.ip3 a.ip4)
        (proc_groups a.ip5 a.ip6 ++ proc_groups a.ip7 a.ip8)
        (proc_groups-Lacks a.ip3 a.ip4 r.ip3 r.ip4) l5 in
    Lacks-append b':' (proc_groups a.ip1 a.ip2)
      (proc_groups a.ip3 a.ip4 ++ (proc_groups a.ip5 a.ip6 ++ proc_groups a.ip7 a.ip8))
      (proc_groups-Lacks a.ip1 a.ip2 r.ip1 r.ip2) l3

-- setSockFrom6 reads back the IPv6 address and the port that the kernel wrote, for groups and a
-- port below 65536, whatever the address was before.
pub set_sock_from6-proc :
    (a sa : SockAddr) → InRange a → set_sock_from6 (proc_addr6 a ++ b':' ∷ hex4 a.port) sa ≡ some a
unfolding set_sock_from6 proc_addr6 substr hex4
set_sock_from6-proc a sa r =
    rw
      (
        find_char-append b':' (proc_addr6 a) (hex4 a.port) (proc_addr6-Lacks a r),
        add_size-eq 32 1 (omega arith),
        strtoul16_quad (a.ip1 / 256) (a.ip1 % 256) (omega arith) (omega arith),
        strtoul16_quad (a.ip2 / 256) (a.ip2 % 256) (omega arith) (omega arith),
        strtoul16_quad (a.ip3 / 256) (a.ip3 % 256) (omega arith) (omega arith),
        strtoul16_quad (a.ip4 / 256) (a.ip4 % 256) (omega arith) (omega arith),
        strtoul16_quad (a.ip5 / 256) (a.ip5 % 256) (omega arith) (omega arith),
        strtoul16_quad (a.ip6 / 256) (a.ip6 % 256) (omega arith) (omega arith),
        strtoul16_quad (a.ip7 / 256) (a.ip7 % 256) (omega arith) (omega arith),
        strtoul16_quad (a.ip8 / 256) (a.ip8 % 256) (omega arith) (omega arith),
        strtoul16_quad (a.port / 256) (a.port % 256) (omega arith) (omega arith),
      )
      (ground arith)
