-- ===== src/LogParser/Following.antt =====
-- What a parse of a log keeps, and that a log is read only once.
use watched_agent.Base.{
  ℕ, zero, suc, ◌+◌, ◌%◌, ◌^◌, ◌≤◌, false, List, [], ◌∷◌, ◌++◌, ◌≡◌, refl, arith, Option, none,
  some, if◌then◌else◌, Str, length, take, codes, map, append_assoc, append-nil, ◌∙◌, ap, sym,
  Bool-cases, inl, inr, take_all, All, str_eq,
}
use watched_agent.Text.Find.{Lacks}
use watched_agent.Json.{Json}
use watched_agent.LogParser.{
  Plugin, lines_of, level_text, is_report, LogParser, fill, fill_first, cut, parse_lines,
  lines_from, is_at, is_rotated, read_log, parse_log,
}
use watched_agent.Resource.{push_copy}

-- A file of some lines, each with its line end.
abbrev pub unlines : List Str → Str
unlines [] = []
unlines (l ∷ ls) = l ++ (10 ∷ unlines ls)

lines_of-line :
    (line rest read : Str)
    → Lacks 10 line
    → lines_of read (line ++ (10 ∷ rest)) ≡ (read ++ line) ∷ lines_of [] rest
unfolding lines_of
lines_of-line [] rest [] h = refl
lines_of-line [] rest (r ∷ read) h = ap (λ x. x ∷ lines_of [] rest) (sym (append-nil (r ∷ read)))
lines_of-line (c ∷ line) rest [] h = ground (arith, lines_of-line line rest (c ∷ []))
lines_of-line (c ∷ line) rest (r ∷ read) h =
    ground
      (arith, lines_of-line line rest ((r ∷ read) ++ c ∷ []), append_assoc (r ∷ read) (c ∷ []) line)

-- The loop of getline reads back the lines of a file, when no line has a line end in it.
lines_of-unlines : (ls : List Str) → All (Lacks 10) ls → lines_of [] (unlines ls) ≡ ls
unfolding lines_of
lines_of-unlines [] h = refl
lines_of-unlines (l ∷ ls) h =
    lines_of-line l (unlines ls) [] h.0 ∙ ap (λ x. l ∷ x) (lines_of-unlines ls h.1)

take-take :
    {A : Type 0} (n m : ℕ) (xs ys : List A) → n ≤ m → take n (xs ++ take m ys) ≡ take n (xs ++ ys)
take-take zero m [] ys h = refl
take-take (suc n) zero [] ys h = absurd (omega arith)
take-take (suc n) (suc m) [] [] h = refl
take-take (suc n) (suc m) [] (y ∷ ys) h = ap (λ z. y ∷ z) (take-take n m [] ys (omega arith))
take-take zero m (x ∷ xs) ys h = refl
take-take (suc n) m (x ∷ xs) ys h = ap (λ z. x ∷ z) (take-take n m xs ys (omega arith))

length-take_bound : {A : Type 0} (n : ℕ) (xs : List A) → length (take n xs) ≤ n
length-take_bound zero xs = omega arith
length-take_bound (suc n) [] = omega arith
length-take_bound (suc n) (x ∷ xs) = omega (arith, length-take_bound n xs)

map-take : {A B : Type 0} (f : A → B) (n : ℕ) (xs : List A) → map f (take n xs) ≡ take n (map f xs)
map-take f zero xs = refl
map-take f (suc n) [] = refl
map-take f (suc n) (x ∷ xs) = ap (λ z. f x ∷ z) (map-take f n xs)

module _ (json : Json) where
  open json use {Value, get, put, of_ℕ, of_str, is_map, get-put, is_map-put}

  -- What a client reads in an entry of the log: the line's number, its text, its level, its date.
  abbrev pub view : Value → Value × Value × Value × Value
  view x = (
    get (codes "line_no") x,
    get (codes "text") x,
    get (codes "level") x,
    get (codes "date_mark") x,
  )

  abbrev pub entry : Plugin → ℕ → Str → Value × Value × Value × Value
  entry p n line =
      (of_ℕ n, of_str line, of_str (level_text (p.get_level line)), of_str (p.get_date line))

  -- The entries of the lines that are reports, the last line's first, with the number of each line
  -- when `n` lines were read before.
  unfoldable pub logged : Plugin → ℕ → List Str → List (Value × Value × Value × Value)
  logged p n [] = []
  logged p n (line ∷ lines) =
      let n' = (n + 1) % 2 ^ 64 in
      logged p n' lines ++ (if is_report p line then entry p n' line ∷ [] else [])

  view-fill :
      (p : Plugin) (now : Value) (n : ℕ) (line : Str) (x : Value)
      → view (fill json p now n line x) ≡ entry p n line
  unfolding fill str_eq
  view-fill p now n line x =
      let a = put (codes "timestamp") now x in
      let b = put (codes "date_mark") (of_str (p.get_date line)) a in
      let c = put (codes "line_no") (of_ℕ n) b in
      let d = put (codes "text") (of_str line) c in
      let l = of_str (level_text (p.get_level line)) in
      let ma = is_map-put (codes "timestamp") now x in
      let mb = is_map-put (codes "date_mark") (of_str (p.get_date line)) a in
      let mc = is_map-put (codes "line_no") (of_ℕ n) b in
      let md = is_map-put (codes "text") (of_str line) c in
      let at = λ (k : Str). get-put k (codes "level") l d md in
      let at_c = λ (k : Str). get-put k (codes "text") (of_str line) c mc in
      let n_ = codes "line_no" in
      let t_ = codes "text" in
      let d_ = codes "date_mark" in
      let p_n = at n_ ∙ (at_c n_ ∙ get-put n_ n_ (of_ℕ n) b mb) in
      let p_t = at t_ ∙ at_c t_ in
      let p_l = at (codes "level") in
      let p_d =
        at d_
        ∙ (at_c d_
            ∙ (get-put d_ n_ (of_ℕ n) b mb ∙ get-put d_ d_ (of_str (p.get_date line)) a ma)) in
      λ i. (p_n i, p_t i, p_l i, p_d i)

  view-fill_first :
      (p : Plugin) (now : Value) (n : ℕ) (line : Str) (v : List Value)
      → map view (fill_first json p now n line (push_copy json v)) ≡ entry p n line ∷ map view v
  unfolding fill_first push_copy
  view-fill_first p now n line [] = ap (λ z. z ∷ []) (view-fill p now n line json.object)
  view-fill_first p now n line (x ∷ xs) = ap (λ z. z ∷ map view (x ∷ xs)) (view-fill p now n line x)

  cut_eq : (n : ℕ) (v : List Value) → cut json n v ≡ take n v
  unfolding cut
  cut_eq n v = ground (arith, take_all n v)

  parse_lines-logged :
      (p : Plugin) (clock : ℕ → Value) (size : ℕ) (lines : List Str) (n : ℕ) (v : List Value)
      → length v ≤ size
      → map view (parse_lines json p clock size lines n v).1
        ≡ take size (logged p n lines ++ map view v)
  unfolding parse_lines logged
  parse_lines-logged p clock size [] n v h =
      ap (map view) (sym (take_all size v h)) ∙ map-take view size v
  parse_lines-logged p clock size (line ∷ lines) n v h =
      let n' = (n + 1) % 2 ^ 64 in
      let v' = fill_first json p (clock n') n' line (push_copy json v) in
      elim (Bool-cases (is_report p line)) [
        | inl e ↦
            rw (e, parse_lines, cut_eq size v')
              (parse_lines-logged p clock size lines n' (take size v') (length-take_bound size v')
                ∙ (rw (map-take view size v', view-fill_first p (clock n') n' line v)
                    (take-take size size (logged p n' lines) (entry p n' line ∷ map view v)
                        (omega arith)
                      ∙ ap (take size) (
                          sym (
                            append_assoc (logged p n' lines) (entry p n' line ∷ [])
                              (map view v))))))
        | inr e ↦
            rw (e, parse_lines)
              (parse_lines-logged p clock size lines n' v h
                ∙ ap (λ z. take size (z ++ map view v)) (sym (append-nil (logged p n' lines))))
      ]

  -- A parse, when the size of the file is not the position, reads the lines behind the position,
  -- or all lines when the file is shorter than the position, and none at a position of -1. The
  -- history, which is within its size before, then holds the entries of the lines that are
  -- reports, the last line first, with their numbers, texts, levels and dates, in front of those
  -- of before, as many as the history has room for.
  pub parse_log-logged :
      (p : Plugin) (clock : ℕ → Value) (text : Str) (s : LogParser json)
      → let size = json.as_ℕ (get (codes "history") s.cfg) in
        length s.v ≤ size
        → is_at s.pos (length text) ≡ false
        → let rotated = is_rotated s.pos (length text) in
          map view (parse_log json p clock (some text) s).v
          ≡ take size (
              logged p
                (if rotated then 0 else s.line_no)
                (lines_from (if rotated then some 0 else s.pos) text)
              ++ map view s.v)
  unfolding parse_log read_log
  parse_log-logged p clock text s h new =
      let size = json.as_ℕ (get (codes "history") s.cfg) in
      elim (Bool-cases (is_rotated s.pos (length text))) [
        | inl e ↦ rw (new, e) (parse_lines-logged p clock size (lines_from (some 0) text) 0 s.v h)
        | inr e ↦
            rw (new, e) (parse_lines-logged p clock size (lines_from s.pos text) s.line_no s.v h)
      ]

  lost :
      (p : Plugin) (clock : ℕ → Value) (text : Option Str) (cfg : Value) (v : List Value) (n : ℕ)
      → let s : LogParser json = record { cfg = cfg; v = v; pos = none; line_no = n } in
        parse_log json p clock text s ≡ s
  unfolding parse_log read_log is_at lines_from parse_lines is_rotated
  lost p clock none cfg v n = refl
  lost p clock (some text) cfg v n = refl

  parse_log-read :
      (p : Plugin) (clock : ℕ → Value) (text : Str) (s : LogParser json)
      → is_at s.pos (length text) ≡ false
      → (r : LogParser json) × (parse_log json p clock (some text) s ≡ record r { pos = none })
  unfolding parse_log read_log
  parse_log-read p clock text s new =
      let s' =
        if is_rotated s.pos (length text) then record s { pos = some 0; line_no = 0 } else s in
      (read_log json p clock text s', rw new refl)

  -- Once a parse has been behind its test of the file's size, no later parse changes anything,
  -- whatever the file then holds.
  pub parse_log-once :
      (p : Plugin) (clock clock' : ℕ → Value) (text : Str) (text' : Option Str) (s : LogParser json)
      → is_at s.pos (length text) ≡ false
      → parse_log json p clock' text' (parse_log json p clock (some text) s)
        ≡ parse_log json p clock (some text) s
  parse_log-once p clock clock' text text' s new =
      let (r, e) = parse_log-read p clock text s new in
      rw e (lost p clock' text' r.cfg r.v r.line_no)
