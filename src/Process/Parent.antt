-- ===== src/Process/Parent.antt =====
-- getPPID on the line that the kernel writes in /proc/[pid]/stat.
use mathlib.Core.List.{concat-ne-nil}
use watched_agent.Base.{
  ℕ, ◌≤◌, ◌<◌, ◌^◌, false, [], ◌∷◌, ◌++◌, some, ◌≡◌, ◌≢◌, refl, ◌∙◌, arith, Str, All, All-append,
  append-nil, append_assoc,
}
use watched_agent.Text.{is_space, scan, skip_space, sign, digit_val, to_string}
use watched_agent.Text.Numbers.{
  IsDecimal, to_string-IsDecimal, to_string-ne-nil, to_string-All, scan-to_string,
  skip_space_digits, sign_digits,
}
use watched_agent.Socket.{words, words_from, token, atoi_u32}
use watched_agent.Process.{Os, get_ppid}

-- A text with no white space.
abbrev pub IsWord : Str → Type 0
IsWord = All (λ c. is_space c ≡ false)

words_from-word :
    (w cur rest : Str) → IsWord w → words_from cur (w ++ rest) ≡ words_from (cur ++ w) rest
unfolding words_from
words_from-word [] cur rest h = rw append-nil
words_from-word (c ∷ w) cur rest h =
    ground (arith, words_from-word w (cur ++ c ∷ []) rest h.1, append_assoc cur (c ∷ []) w)

words_from-space :
    (cur rest : Str) → cur ≢ [] → words_from cur (b' ' ∷ rest) ≡ cur ∷ words_from [] rest
unfolding words_from
words_from-space [] rest h = absurd (h refl)
words_from-space (c ∷ cur) rest h = ground arith

-- The first word, when a space follows it.
words-append :
    (w rest : Str) → w ≢ [] → IsWord w → words_from [] (w ++ b' ' ∷ rest) ≡ w ∷ words_from [] rest
words-append w rest n h = words_from-word w [] (b' ' ∷ rest) h ∙ words_from-space w rest n

IsDecimal-IsWord : (w : Str) → All IsDecimal w → IsWord w
unfolding is_space
IsDecimal-IsWord [] h = tt
IsDecimal-IsWord (c ∷ w) h = (ground arith, IsDecimal-IsWord w h.1)

pub atoi_u32-to_string : (n : ℕ) → n < 2 ^ 32 → atoi_u32 (to_string n) ≡ n
unfolding atoi_u32
atoi_u32-to_string n h =
    let t = to_string n in
    let e = append-nil t in
    let a : skip_space t ≡ t =
      rw e at (skip_space_digits t [] (to_string-ne-nil n) (to_string-All n)) in
    let b : sign t ≡ (false, t) =
      rw e at (sign_digits t [] (to_string-ne-nil n) (to_string-All n)) in
    let c : scan 10 0 t ≡ (n, []) = rw e at (scan-to_string n [] tt) in
    rw (atoi_u32, a, b, c) (ground arith)

atoi_letter : (c : ℕ) → 65 ≤ c → atoi_u32 (c ∷ []) ≡ 0
unfolding atoi_u32 is_space digit_val
atoi_letter c h = ground arith

-- The line of a process: pid (comm) state ppid, and what follows.
abbrev pub stat_text : ℕ → Str → ℕ → ℕ → Str → Str
stat_text pid comm state ppid rest =
    to_string pid
    ++ b' '
      ∷ ((b'(' ∷ comm ++ b')' ∷ [])
          ++ b' ' ∷ ((state ∷ []) ++ b' ' ∷ (to_string ppid ++ b' ' ∷ rest)))

-- For a process whose name has no white space, whose state is no white space and whose parent is
-- below 2 ^ 32, getPPID gives the parent that its line in /proc has.
pub get_ppid-stat :
    (os : Os) (pid ppid state : ℕ) (comm rest : Str)
    → os.stat_line pid ≡ some (stat_text pid comm state ppid rest)
    → IsWord comm
    → is_space state ≡ false
    → ppid < 2 ^ 32
    → get_ppid os pid ≡ ppid
unfolding get_ppid words token
get_ppid-stat os pid ppid state comm rest e hc hs hp =
    let w = b'(' ∷ comm ++ b')' ∷ [] in
    let hw : IsWord w = unfold is_space in (refl, All-append _ comm (b')' ∷ []) hc (refl, tt)) in
    rw
      (
        e,
        get_ppid,
        words-append (to_string pid)
            (w ++ b' ' ∷ ((state ∷ []) ++ b' ' ∷ (to_string ppid ++ b' ' ∷ rest)))
            (to_string-ne-nil pid) (IsDecimal-IsWord (to_string pid) (to_string-IsDecimal pid)),
        words-append w ((state ∷ []) ++ b' ' ∷ (to_string ppid ++ b' ' ∷ rest)) (cc) hw,
        words-append (state ∷ []) (to_string ppid ++ b' ' ∷ rest) (cc) (hs, tt),
        words-append (to_string ppid) rest (to_string-ne-nil ppid)
            (IsDecimal-IsWord (to_string ppid) (to_string-IsDecimal ppid)),
      )
      (atoi_u32-to_string ppid hp)

-- A process whose name holds one space, between two words, has the letter of its state read for
-- its parent: getPPID gives 0, whatever the parent is.
pub get_ppid-space :
    (os : Os) (pid ppid state : ℕ) (a b rest : Str)
    → os.stat_line pid ≡ some (stat_text pid (a ++ b' ' ∷ b) state ppid rest)
    → IsWord a
    → IsWord b
    → 65 ≤ state
    → get_ppid os pid ≡ 0
unfolding get_ppid words token
get_ppid-space os pid ppid state a b rest e ha hb hs =
    let v = b'(' ∷ a in
    let w = b ++ b')' ∷ [] in
    let end = to_string ppid ++ b' ' ∷ rest in
    let hv : IsWord v = unfold is_space in (refl, ha) in
    let hw : IsWord w = unfold is_space in All-append _ b (b')' ∷ []) hb (refl, tt) in
    let hl : IsWord (state ∷ []) = unfold is_space in (ground arith, tt) in
    let split : stat_text pid (a ++ b' ' ∷ b) state ppid rest
        ≡ to_string pid ++ b' ' ∷ (v ++ b' ' ∷ (w ++ b' ' ∷ ((state ∷ []) ++ b' ' ∷ end))) =
      simp append_assoc in
    rw
      (
        e,
        get_ppid,
        split,
        words-append (to_string pid) (v ++ b' ' ∷ (w ++ b' ' ∷ ((state ∷ []) ++ b' ' ∷ end)))
            (to_string-ne-nil pid) (IsDecimal-IsWord (to_string pid) (to_string-IsDecimal pid)),
        words-append v (w ++ b' ' ∷ ((state ∷ []) ++ b' ' ∷ end)) (cc) hv,
        words-append w ((state ∷ []) ++ b' ' ∷ end) (concat-ne-nil b')' b) hw,
        words-append (state ∷ []) end (cc) hl,
      )
      (atoi_letter state hs)
