-- ===== src/Socket/Url/Groups.antt =====
-- The pieces of an address that the constructor of socket reads from a text.
use watched_agent.Base.{
  ℕ, ◌+◌, ◌≤◌, ◌<◌, ◌≡◌, ◌≢◌, refl, ◌∙◌, ap, [], ◌∷◌, ◌++◌, some, arith, Str, true, false, All,
  length, length-append, take, take_all, append_assoc, append-nil,
}
use watched_agent.Text.{
  find_char, substr, scan, strtoul16, to_string, to_hex, sign, npos, digit_val,
}
use watched_agent.Text.Find.{
  find_char-append, add_size-eq, substr-append, find_char_at-append, substr_behind,
  take-append_stop, Lacks-IsDigit,
}
use watched_agent.Text.Numbers.{
  IsDecimal, to_string-All, to_hex-All, to_string-ne-nil, to_string-IsDecimal, length-to_hex,
  scan-to_string, skip_space_digits, sign_digits, strtoul16-to_hex, Ends,
}
use watched_agent.Socket.{
  SockAddr, InRange, u16, starts_digit, word_u16, extract_u16, extract_char, read_v4, next_group,
  read_v6, host_v4, host_v6,
}

starts_digit_decimal : (s rest : Str) → s ≢ [] → All IsDecimal s → starts_digit (s ++ rest) ≡ true
unfolding starts_digit
starts_digit_decimal [] rest h a = absurd (h refl)
starts_digit_decimal (c ∷ s) rest h a = ground arith

-- A number is read when no sign stands in front of its digits and it fits.
word_u16_of :
    (s rest : Str) (n old : ℕ)
    → starts_digit s ≡ true
    → sign s ≡ (false, s)
    → scan 10 0 s ≡ (n, rest)
    → n < 65536
    → word_u16 s old ≡ (n, record { rest = rest; fail = false })
unfolding word_u16
word_u16_of [] rest n old d g e h = unfold starts_digit in absurd (cc d)
word_u16_of (c ∷ s) rest n old d g e h = ground arith

extract_u16-to_string :
    (n old : ℕ) (rest : Str)
    → n < 65536
    → Ends 10 rest
    → extract_u16 (record { rest = to_string n ++ rest; fail = false }) old
      ≡ (n, record { rest = rest; fail = false })
unfolding extract_u16
extract_u16-to_string n old rest h e =
    rw (skip_space_digits (to_string n) rest (to_string-ne-nil n) (to_string-All n)) (
      word_u16_of (to_string n ++ rest) rest n old
        (starts_digit_decimal (to_string n) rest (to_string-ne-nil n) (to_string-IsDecimal n))
        (sign_digits (to_string n) rest (to_string-ne-nil n) (to_string-All n))
        (scan-to_string n rest e) h)

extract_char_dot :
    (rest : Str)
    → extract_char (record { rest = b'.' ∷ rest; fail = false })
      ≡ record { rest = rest; fail = false }
unfolding extract_char
extract_char_dot rest = refl

pub read_v4-host :
    (a sa : SockAddr)
    → InRange a
    → read_v4 (host_v4 a) sa ≡ record sa { ip1 = a.ip1; ip2 = a.ip2; ip3 = a.ip3; ip4 = a.ip4 }
unfolding read_v4 host_v4
read_v4-host a sa r =
    let t4 = to_string a.ip4 in
    let t3 = to_string a.ip3 ++ b'.' ∷ t4 in
    let t2 = to_string a.ip2 ++ b'.' ∷ t3 in
    let e : t4 ++ [] ≡ t4 = append-nil t4 in
    rw (
      read_v4,
      extract_u16-to_string a.ip1 sa.ip1 (b'.' ∷ t2) r.ip1 (unfold digit_val in refl),
      extract_char_dot t2,
      extract_u16-to_string a.ip2 sa.ip2 (b'.' ∷ t3) r.ip2 (unfold digit_val in refl),
      extract_char_dot t3,
      extract_u16-to_string a.ip3 sa.ip3 (b'.' ∷ t4) r.ip3 (unfold digit_val in refl),
      extract_char_dot t4,
      (rw e at (extract_u16-to_string a.ip4 sa.ip4 [] r.ip4 tt)),
    )

-- One group behind a colon, with another colon behind it.
next_group-to_hex :
    (n : ℕ) (xs rest : Str)
    → n < 65536
    → length xs < 1000000
    → next_group (xs ++ b':' ∷ (to_hex n ++ b':' ∷ rest)) (length xs)
      ≡ some (n, length xs + 1 + length (to_hex n))
unfolding next_group
next_group-to_hex n xs rest h k =
    rw
      (
        add_size-eq (length xs) 1 (omega arith),
        next_group,
        find_char_at-append b':' b':' xs (to_hex n) rest (Lacks-IsDigit (to_hex n) (to_hex-All n)),
        substr_behind b':' xs (to_hex n ++ b':' ∷ rest) (length xs + 1 + length (to_hex n)),
        take-append_stop b':' (length xs) (to_hex n) rest,
      )
      (rw (strtoul16-to_hex n (b':' ∷ take (length xs) rest) (omega arith) refl) (ground arith))

-- The same, for a text that is known up to the position.
next_group_step :
    (ip xs rest : Str) (n : ℕ)
    → ip ≡ xs ++ b':' ∷ (to_hex n ++ b':' ∷ rest)
    → n < 65536
    → length xs < 1000000
    → (next_group ip (length xs) ≡ some (n, length (xs ++ b':' ∷ to_hex n)))
      × (ip ≡ (xs ++ b':' ∷ to_hex n) ++ b':' ∷ rest)
      × (length (xs ++ b':' ∷ to_hex n) ≤ length xs + 65538)
next_group_step ip xs rest n e h k = (
  rw e (ground (arith, next_group-to_hex n xs rest h k, length-append xs (b':' ∷ to_hex n))),
  e ∙ simp append_assoc,
  omega (arith, length-append xs (b':' ∷ to_hex n), length-to_hex n),
)

strtoul16_hex_group : (n : ℕ) → n < 65536 → u16 (strtoul16 (to_hex n)) ≡ n
strtoul16_hex_group n h =
    let e : strtoul16 (to_hex n ++ []) ≡ n = strtoul16-to_hex n [] (omega arith) tt in
    rw (← append-nil (to_hex n), e) (omega arith)

pub read_v6-host :
    (a sa : SockAddr) → InRange a → read_v6 (host_v6 a) sa ≡ some (record a { port = sa.port })
unfolding read_v6
read_v6-host a sa r =
    let r7 = to_hex a.ip7 ++ b':' ∷ to_hex a.ip8 in
    let r6 = to_hex a.ip6 ++ b':' ∷ r7 in
    let r5 = to_hex a.ip5 ++ b':' ∷ r6 in
    let r4 = to_hex a.ip4 ++ b':' ∷ r5 in
    let r3 = to_hex a.ip3 ++ b':' ∷ r4 in
    let r2 = to_hex a.ip2 ++ b':' ∷ r3 in
    let x1 = to_hex a.ip1 in
    let x2 = x1 ++ b':' ∷ to_hex a.ip2 in
    let x3 = x2 ++ b':' ∷ to_hex a.ip3 in
    let x4 = x3 ++ b':' ∷ to_hex a.ip4 in
    let x5 = x4 ++ b':' ∷ to_hex a.ip5 in
    let x6 = x5 ++ b':' ∷ to_hex a.ip6 in
    let x7 = x6 ++ b':' ∷ to_hex a.ip7 in
    let ip = host_v6 a in
    let b1 : length x1 ≤ 65537 = omega (arith, length-to_hex a.ip1, r.ip1) in
    let e1 : ip ≡ x1 ++ b':' ∷ r2 = unfold host_v6 in refl in
    let s2 = next_group_step ip x1 r3 a.ip2 e1 r.ip2 (omega arith) in
    let s3 = next_group_step ip x2 r4 a.ip3 s2.1 r.ip3 (omega (arith, s2.2)) in
    let s4 = next_group_step ip x3 r5 a.ip4 s3.1 r.ip4 (omega (arith, s2.2, s3.2)) in
    let s5 = next_group_step ip x4 r6 a.ip5 s4.1 r.ip5 (omega (arith, s2.2, s3.2, s4.2)) in
    let s6 = next_group_step ip x5 r7 a.ip6 s5.1 r.ip6 (omega (arith, s2.2, s3.2, s4.2, s5.2)) in
    let s7 =
      next_group_step ip x6 (to_hex a.ip8) a.ip7 s6.1 r.ip7
        (omega (arith, s2.2, s3.2, s4.2, s5.2, s6.2)) in
    let f1 : find_char b':' ip ≡ length x1 =
      rw e1 (find_char-append b':' x1 r2 (Lacks-IsDigit x1 (to_hex-All a.ip1))) in
    let h1 : substr ip 0 (length x1) ≡ some x1 = rw e1 (substr-append [] x1 (b':' ∷ r2)) in
    let h8 : substr ip (length x7 + 1) npos ≡ some (to_hex a.ip8) = rw s7.1 (
      substr_behind b':' x7 (to_hex a.ip8) npos
      ∙ ap some (take_all npos (to_hex a.ip8) (omega (arith, length-to_hex a.ip8)))) in
    rw (
      f1,
      s2.0,
      s3.0,
      s4.0,
      s5.0,
      s6.0,
      s7.0,
      add_size-eq (length x7) 1 (omega (arith, s2.2, s3.2, s4.2, s5.2, s6.2, s7.2)),
      h1,
      h8,
      strtoul16_hex_group a.ip1 r.ip1,
      strtoul16_hex_group a.ip8 r.ip8,
    )
