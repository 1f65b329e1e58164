-- ===== src/Metrics/Memory/Shares.antt =====
-- The lines of /proc/meminfo are read back, and the shares of the memory add up to its total.
use watched_agent.Base.{
  ℕ, zero, suc, ◌+◌, ◌*◌, ◌%◌, ◌^◌, ◌<◌, ◌≤◌, ◌≡◌, ◌≢◌, refl, arith, [], ◌∷◌, ◌++◌, some, Str,
  length, All, ap, ◌∙◌, sym, append_assoc, length-append, ◌↔◌, subst,
}
use watched_agent.Text.{sub_size, find_char, find_char_at, substr, to_string}
use watched_agent.Text.Numbers.{IsDigit, to_string-All, to_string-ne-nil, length-to_string}
use watched_agent.Text.Find.{
  Lacks, find_char-append, find_char_at-append, substr-append, drop_behind, add_size-eq,
  sub_size-eq,
}
use watched_agent.Socket.{atoi_u32}
use watched_agent.Process.Parent.{atoi_u32-to_string}
use watched_agent.Metrics.Memory.{
  skip_from, amount_start, read_amount, MemInfo, minus_u32, apps, swap_used, hundredfold,
}

-- `k` spaces.
abbrev pub spaces : ℕ → Str
spaces zero = []
spaces (suc k) = b' ' ∷ spaces k

length-spaces : (k : ℕ) → length (spaces k) ≡ k
length-spaces zero = refl
length-spaces (suc k) = omega (arith, length-spaces k)

skip_from-spaces :
    (start i k d : ℕ) (s : Str) → d ≢ b' ' → skip_from start i (spaces k ++ d ∷ s) ≡ i + k
unfolding skip_from
skip_from-spaces start i zero d s h = ground arith
skip_from-spaces start i (suc k) d s h = ground (arith, skip_from-spaces start (i + 1) k d s h)

abbrev pub amount_line : Str → ℕ → Str → Str → Str
amount_line name k word rest = name ++ b':' ∷ (spaces k ++ (word ++ b' ' ∷ rest))

-- What stands in front of the number.
abbrev front : Str → ℕ → Str
front name k = name ++ b':' ∷ spaces k

length-front : (name : Str) (k : ℕ) → length (front name k) ≡ length name + 1 + k
length-front name k = omega (arith, length-append name (b':' ∷ spaces k), length-spaces k)

line-front : (name : Str) (k : ℕ) (w : Str) → name ++ b':' ∷ (spaces k ++ w) ≡ front name k ++ w
line-front name k w = sym (append_assoc name (b':' ∷ spaces k) w)

amount_start-word :
    (name : Str) (k d : ℕ) (s : Str)
    → Lacks b':' name
    → d ≢ b' '
    → length name + 1 < 2 ^ 64
    → amount_start (name ++ b':' ∷ (spaces k ++ d ∷ s)) ≡ length name + 1 + k
unfolding amount_start
amount_start-word name k d s hn hd b =
    rw
      (
        find_char-append b':' name (spaces k ++ d ∷ s) hn,
        add_size-eq (length name) 1 b,
        drop_behind b':' name (spaces k ++ d ∷ s),
      )
      (skip_from-spaces (length name + 1) (length name + 1) k d s hd)

read_amount-steps :
    (line id text : Str) (st len : ℕ)
    → substr line 0 (find_char b':' line) ≡ some id
    → amount_start line ≡ st
    → sub_size (find_char_at b' ' line (st + 1)) st ≡ len
    → substr line st len ≡ some text
    → read_amount line ≡ some (id, atoi_u32 text)
unfolding read_amount
read_amount-steps line id text st len a b c d = rw (a, b, c, d) refl

read_amount-word :
    (name : Str) (k d : ℕ) (ds rest : Str)
    → Lacks b':' name
    → d ≢ b' '
    → Lacks b' ' ds
    → length name + k + length ds + 2 < 2 ^ 64
    → read_amount (amount_line name k (d ∷ ds) rest) ≡ some (name, atoi_u32 (d ∷ ds))
read_amount-word name k d ds rest hn hd hs b =
    let line = amount_line name k (d ∷ ds) rest in
    let tail = (d ∷ ds) ++ b' ' ∷ rest in
    let st = length name + 1 + k in
    let e = line-front name k tail in
    let fl = length-front name k in
    let at : find_char_at b' ' line (st + 1) ≡ st + 1 + length ds =
      subst (λ n. find_char_at b' ' line (n + 1) ≡ n + 1 + length ds) fl
        (subst
          (λ l.
            find_char_at b' ' l (length (front name k) + 1) ≡ length (front name k) + 1 + length ds)
          (sym e) (find_char_at-append b' ' d (front name k) ds rest hs)) in
    let cut : substr line st (length (d ∷ ds)) ≡ some (d ∷ ds) =
      subst (λ n. substr line n (length (d ∷ ds)) ≡ some (d ∷ ds)) fl
        (subst (λ l. substr l (length (front name k)) (length (d ∷ ds)) ≡ some (d ∷ ds)) (sym e)
          (substr-append (front name k) (d ∷ ds) (b' ' ∷ rest))) in
    read_amount-steps line name (d ∷ ds) st (length (d ∷ ds))
      (rw (find_char-append b':' name (spaces k ++ tail) hn)
        (substr-append [] name (b':' ∷ (spaces k ++ tail))))
      (amount_start-word name k d (ds ++ b' ' ∷ rest) hn hd (omega arith))
      (rw at (omega (arith, sub_size-eq (st + 1 + length ds) st (omega arith) (omega arith)))) cut

Lacks-space : (xs : Str) → All IsDigit xs → Lacks b' ' xs
Lacks-space [] h = tt
Lacks-space (x ∷ xs) h = (omega arith, Lacks-space xs h.1)

read_amount-digits :
    (name : Str) (k : ℕ) (w rest : Str)
    → Lacks b':' name
    → w ≢ []
    → All IsDigit w
    → length name + k + length w + 1 < 2 ^ 64
    → read_amount (amount_line name k w rest) ≡ some (name, atoi_u32 w)
read_amount-digits name k [] rest hn hw hd b = absurd (hw refl)
read_amount-digits name k (d ∷ ds) rest hn hw hd b =
    read_amount-word name k d ds rest hn (omega arith) (Lacks-space ds hd.1) (omega arith)

-- A line of /proc/meminfo, with the name of an amount, a colon, some spaces, the amount and a
-- space in front of its unit, is read as the name and the amount, when the name has no colon, the
-- name and the spaces are below 2 ^ 32 bytes together, and the amount is below 2 ^ 32.
read_amount-line :
    (name : Str) (k n : ℕ) (rest : Str)
    → Lacks b':' name
    → n < 2 ^ 32
    → length name + k < 2 ^ 32
    → read_amount (amount_line name k (to_string n) rest) ≡ some (name, n)
read_amount-line name k n rest hn h b =
    read_amount-digits name k (to_string n) rest hn (to_string-ne-nil n) (to_string-All n)
      (omega (arith, length-to_string n))
    ∙ ap (λ z. some (name, z)) (atoi_u32-to_string n h)

-- For totals below 2 ^ 32, the shares of the memory that are shown add up to its total on uint32_t,
-- and the used and the free swap to the total of the swap.
apps-shares :
    (m : MemInfo)
    → m.total < 2 ^ 32
    → m.swap_total < 2 ^ 32
    → ((apps m + (m.free + m.cached + m.slab + m.buffers)) % 2 ^ 32 ≡ m.total)
      × ((swap_used m + m.swap_free) % 2 ^ 32 ≡ m.swap_total)
unfolding apps swap_used minus_u32
apps-shares m h hs = (omega arith, omega arith)

-- The percentage of free memory is computed from 100 times the free kilobytes exactly when these
-- are at most 42949672, which is about 41 GB: of more, the product wraps around.
hundredfold-exact : (free : ℕ) → (hundredfold free ≡ 100 * free) ↔ (free ≤ 42949672)
unfolding hundredfold
hundredfold-exact free = (λ e. omega arith, λ h. omega arith)
