-- ===== src/Socket/Url.antt =====
-- The text that get_source writes is what the constructor from a text reads.
pub mod Groups
use watched_agent.Base.{
  ℕ, ◌+◌, ◌≤◌, ◌<◌, ◌≡◌, ◌≢◌, refl, ◌∙◌, ap, [], ◌∷◌, ◌++◌, some, arith, Str, ◌>>=◌, if◌then◌else◌,
  true, false, All, length, length-append, take, take_all, append_assoc, append-nil, codes, ◌⊎◌,
  inl, inr, Bool-cases,
}
use watched_agent.Text.{
  find_char, rfind_char, substr, add_size, sub_size, scan, strtoul10, strtoul16, to_string, to_hex,
  sign, npos, digit_val,
}
use watched_agent.Text.Find.{
  Lacks, find_char-append, rfind_char-append, add_size-eq, sub_size-eq, substr-append,
  find_char_at-append, substr_behind, take-append_stop, Lacks-IsDigit,
}
use watched_agent.Text.Numbers.{
  IsDecimal, to_string-All, to_hex-All, to_string-ne-nil, to_string-IsDecimal, length-to_string,
  length-to_hex, scan-to_string, skip_space_digits, sign_digits, strtoul10-to_string,
  strtoul16-to_hex, Ends,
}
use watched_agent.Socket.{
  SockAddr, InRange, Socket, u16, u32, is_v4, starts_digit, word_u16, extract_u16, extract_char,
  read_v4, next_group, read_v6, from_source, host_v4, host_v6, get_source,
}
use watched_agent.Socket.Url.Groups.{read_v4-host, read_v6-host}

-- A type that a socket can have.
abbrev pub IsType : Str → Type 0
IsType t = (t ≡ codes "tcp") ⊎ (t ≡ codes "udp") ⊎ (t ≡ codes "tcp6") ⊎ (t ≡ codes "udp6")

-- The address as get_source shows it: an IPv4 socket has only its first four groups in the text.
abbrev pub shown : Str → SockAddr → SockAddr → SockAddr
shown type a raw =
    if is_v4 type
    then record raw { port = a.port; ip1 = a.ip1; ip2 = a.ip2; ip3 = a.ip3; ip4 = a.ip4 }
    else a

IsType-Lacks : (t : Str) → IsType t → Lacks b':' t × (length t ≤ 4)
IsType-Lacks t (inl e) = rw e (omega arith)
IsType-Lacks t (inr (inl e)) = rw e (omega arith)
IsType-Lacks t (inr (inr (inl e))) = rw e (omega arith)
IsType-Lacks t (inr (inr (inr e))) = rw e (omega arith)

length-host_v4 : (a : SockAddr) → InRange a → length (host_v4 a) ≤ 300000
unfolding host_v4
length-host_v4 a r =
    let t4 = to_string a.ip4 in
    let t3 = to_string a.ip3 ++ b'.' ∷ t4 in
    let t2 = to_string a.ip2 ++ b'.' ∷ t3 in
    omega (
      arith,
      length-append (to_string a.ip1) (b'.' ∷ t2),
      length-append (to_string a.ip2) (b'.' ∷ t3),
      length-append (to_string a.ip3) (b'.' ∷ t4),
      length-to_string a.ip1,
      length-to_string a.ip2,
      length-to_string a.ip3,
      length-to_string a.ip4,
    )

length-host_v6 : (a : SockAddr) → InRange a → length (host_v6 a) ≤ 600000
unfolding host_v6
length-host_v6 a r =
    let t8 = to_hex a.ip8 in
    let t7 = to_hex a.ip7 ++ b':' ∷ t8 in
    let t6 = to_hex a.ip6 ++ b':' ∷ t7 in
    let t5 = to_hex a.ip5 ++ b':' ∷ t6 in
    let t4 = to_hex a.ip4 ++ b':' ∷ t5 in
    let t3 = to_hex a.ip3 ++ b':' ∷ t4 in
    let t2 = to_hex a.ip2 ++ b':' ∷ t3 in
    omega (
      arith,
      length-append (to_hex a.ip1) (b':' ∷ t2),
      length-append (to_hex a.ip2) (b':' ∷ t3),
      length-append (to_hex a.ip3) (b':' ∷ t4),
      length-append (to_hex a.ip4) (b':' ∷ t5),
      length-append (to_hex a.ip5) (b':' ∷ t6),
      length-append (to_hex a.ip6) (b':' ∷ t7),
      length-append (to_hex a.ip7) (b':' ∷ t8),
      length-to_hex a.ip1,
      length-to_hex a.ip2,
      length-to_hex a.ip3,
      length-to_hex a.ip4,
      length-to_hex a.ip5,
      length-to_hex a.ip6,
      length-to_hex a.ip7,
      length-to_hex a.ip8,
    )

-- The three parts that the constructor cuts out of a text.
from_source-parts :
    (raw : Socket) (t host : Str) (port : ℕ)
    → Lacks b':' t × (length t ≤ 4)
    → length host ≤ 600000
    → port < 65536
    → from_source raw (t ++ b':' ∷ b'/' ∷ b'/' ∷ (host ++ b':' ∷ to_string port)) ≡ (
        (if is_v4 t
          then some (read_v4 host (record raw.source { port = port }))
          else read_v6 host (record raw.source { port = port }))
        >>= λ source. some (record raw { type = t; source = source }))
unfolding from_source
from_source-parts raw t host port (lt, bt) bh bp =
    let p = to_string port in
    let src = t ++ b':' ∷ b'/' ∷ b'/' ∷ (host ++ b':' ∷ p) in
    let head = t ++ b':' ∷ b'/' ∷ b'/' ∷ [] in
    let front = t ++ b':' ∷ b'/' ∷ b'/' ∷ host in
    let e1 : src ≡ front ++ b':' ∷ p = simp append_assoc in
    let e2 : src ≡ head ++ (host ++ b':' ∷ p) = simp append_assoc in
    let n1 : length front ≡ length t + 3 + length host =
      omega (arith, length-append t (b':' ∷ b'/' ∷ b'/' ∷ host)) in
    let n2 : length head ≡ length t + 3 =
      omega (arith, length-append t (b':' ∷ b'/' ∷ b'/' ∷ [])) in
    let f : find_char b':' src ≡ length t =
      find_char-append b':' t (b'/' ∷ b'/' ∷ (host ++ b':' ∷ p)) lt in
    let g : rfind_char b':' src ≡ length front =
      rw e1 (rfind_char-append b':' front p (Lacks-IsDigit p (to_string-All port))) in
    let a : substr src 0 (length t) ≡ some t =
      substr-append [] t (b':' ∷ b'/' ∷ b'/' ∷ (host ++ b':' ∷ p)) in
    let b : substr src (length front + 1) npos ≡ some p = rw e1 (
      substr_behind b':' front p npos
      ∙ ap some (take_all npos p (omega (arith, length-to_string port)))) in
    let c : substr src (length t + 3) (length host) ≡ some host =
      rw (e2, ← n2) (substr-append head host (b':' ∷ p)) in
    let d : strtoul10 p ≡ port =
      rw (append-nil p) at (strtoul10-to_string port [] (omega arith) tt) in
    let s3 : add_size (length t) 3 ≡ length t + 3 = add_size-eq (length t) 3 (omega arith) in
    let s1 : add_size (length front) 1 ≡ length front + 1 =
      add_size-eq (length front) 1 (omega arith) in
    let s0 : sub_size (length front) (length t + 3) ≡ length host =
      sub_size-eq (length front) (length t + 3) (omega arith) (omega arith) ∙ omega arith in
    let m : u32 port ≡ port = omega arith in rw (f, g, a, s1, b, s3, s0, c, d, m)

-- A socket of one of the four types, whose source has a port and groups below 65536, is read back
-- from its text as its type and its source; a source of IPv4 keeps the four groups that are not in
-- the text.
pub from_source-get_source :
    (s raw : Socket)
    → IsType s.type
    → InRange s.source
    → from_source raw (get_source s)
      ≡ some (record raw { type = s.type; source = shown s.type s.source raw.source })
unfolding get_source
from_source-get_source s raw t r = elim (Bool-cases (is_v4 s.type)) [
  | inl v4 ↦ rw (
    v4,
    from_source-parts raw s.type (host_v4 s.source) s.source.port (IsType-Lacks s.type t)
        (omega (arith, length-host_v4 s.source r)) r.port,
    v4,
    read_v4-host s.source (record raw.source { port = s.source.port }) r,
  )
  | inr v6 ↦ rw (
    v6,
    from_source-parts raw s.type (host_v6 s.source) s.source.port (IsType-Lacks s.type t)
        (length-host_v6 s.source r) r.port,
    v6,
    read_v6-host s.source (record raw.source { port = s.source.port }) r,
  )
]
