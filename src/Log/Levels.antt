-- ===== src/Log/Levels.antt =====
-- A level is one of seven, in any case of its letters, and a log writes what its level allows.
use watched_agent.Base.{
  ℕ, zero, suc, ◌+◌, ◌≤◌, true, false, List, [], ◌∷◌, ◌≡◌, refl, arith, Str, str_eq, codes, length,
  str_eq_refl, ap, ◌∙◌, if◌then◌else◌,
}
use watched_agent.Json.{Json}
use watched_agent.Log.{
  levels, to_upper, upper, scan_levels, level_of, level_name, with_default, new_log,
}

upper-to_upper : (c : ℕ) → to_upper (to_upper c) ≡ to_upper c
unfolding to_upper
upper-to_upper c = ground arith

upper-upper : (s : Str) → upper (upper s) ≡ upper s
unfolding upper
upper-upper [] = refl
upper-upper (c ∷ s) = ground (arith, upper-to_upper c, upper-upper s)

scan_levels-bound :
    (lvl : Str) (i : ℕ) (ls : List Str) (found : ℕ)
    → found ≤ 6
    → i + length ls ≤ 7
    → scan_levels lvl i ls found ≤ 6
unfolding scan_levels
scan_levels-bound lvl i [] found h b = h
scan_levels-bound lvl i (l ∷ ls) found h b =
    scan_levels-bound lvl (i + 1) ls (if str_eq l lvl then i else found) (ground arith)
      (omega arith)

-- The level of a name is one of the seven, and the case of its letters does not matter.
level_of-upper : (name : Str) → (level_of (upper name) ≡ level_of name) × (level_of name ≤ 6)
unfolding level_of
level_of-upper name = (
  ap (λ s. scan_levels s 0 levels 3) (upper-upper name),
  scan_levels-bound (upper name) 0 levels 3 (omega arith) (omega arith),
)

level_of-level_name : (i : ℕ) → i ≤ 6 → level_of (level_name levels i) ≡ i
unfolding level_of level_name upper to_upper scan_levels str_eq
level_of-level_name zero h = refl
level_of-level_name (suc zero) h = refl
level_of-level_name (suc (suc zero)) h = refl
level_of-level_name (suc (suc (suc zero))) h = refl
level_of-level_name (suc (suc (suc (suc zero)))) h = refl
level_of-level_name (suc (suc (suc (suc (suc zero))))) h = refl
level_of-level_name (suc (suc (suc (suc (suc (suc zero)))))) h = refl
level_of-level_name (suc (suc (suc (suc (suc (suc (suc i))))))) h = absurd (omega arith)

module _ (json : Json) where
  open json use {
    Value, get, put, is_map, of_str, as_str, is_member, get-put, member-put, as_str-of_str,
    is_map-put,
  }

  with_default-is_map :
      (key : Str) (x cfg : Value) → is_map cfg ≡ true → is_map (with_default json key x cfg) ≡ true
  unfolding with_default
  with_default-is_map key x cfg h = ground (arith, is_map-put key x cfg)

  with_default-other :
      (key k : Str) (x cfg : Value)
      → is_map cfg ≡ true
      → str_eq key k ≡ false
      → (get k (with_default json key x cfg) ≡ get k cfg)
        × (is_member k (with_default json key x cfg) ≡ is_member k cfg)
  unfolding with_default
  with_default-other key k x cfg h e =
      (ground (arith, get-put k key x cfg h), ground (arith, member-put k key x cfg h))

  with_default-there :
      (key : Str) (x cfg : Value) → is_member key cfg ≡ true → with_default json key x cfg ≡ cfg
  unfolding with_default
  with_default-there key x cfg h = ground arith

  get-put_level :
      (n : ℕ) (cfg : Value)
      → is_map cfg ≡ true
      → as_str (get (codes "level") (put (codes "level") (of_str (level_name levels n)) cfg))
        ≡ level_name levels n
  get-put_level n cfg h =
      rw
        (
          get-put (codes "level") (codes "level") (of_str (level_name levels n)) cfg h,
          str_eq_refl (codes "level"),
        )
        (as_str-of_str (level_name levels n))

  new_log-cfg :
      (file : Str) (cfg : Value)
      → is_map cfg ≡ true
      → (c : Value) × (is_map c ≡ true)
        × ((new_log json file cfg).level ≤ 6)
        × ((new_log json file cfg).cfg
            ≡ put (codes "level") (of_str (level_name levels (new_log json file cfg).level)) c)
  unfolding new_log
  new_log-cfg file cfg h =
      let c =
        with_default json (codes "level") (of_str (codes "NOTICE"))
          (with_default json (codes "file") (of_str file) cfg) in
      (
        c,
        with_default-is_map (codes "level") (of_str (codes "NOTICE"))
            (with_default json (codes "file") (of_str file) cfg)
            (with_default-is_map (codes "file") (of_str file) cfg h),
        (level_of-upper (as_str (get (codes "level") c))).1,
        refl,
      )

  new_log-level :
      (n : ℕ) (file : Str) (cfg : Value)
      → is_map cfg ≡ true
      → n ≤ 6
      → (new_log json file (put (codes "level") (of_str (level_name levels n)) cfg)).level ≡ n
  unfolding new_log str_eq
  new_log-level n file cfg h b =
      let c = put (codes "level") (of_str (level_name levels n)) cfg in
      let other =
        with_default-other (codes "file") (codes "level") (of_str file) c
          (is_map-put (codes "level") (of_str (level_name levels n)) cfg) refl in
      ap (λ z. level_of (as_str (get (codes "level") z)))
        (with_default-there (codes "level") (of_str (codes "NOTICE"))
          (with_default json (codes "file") (of_str file) c)
          (other.1
            ∙ member-put (codes "level") (codes "level") (of_str (level_name levels n)) cfg h))
      ∙ (ap (λ z. level_of (as_str z)) other.0
          ∙ (ap level_of (get-put_level n cfg h) ∙ level_of-level_name n b))

  -- For a configuration that is an object or nothing, the level of a new log is one of the seven,
  -- its configuration then names it, and a log that is made of that configuration has the same
  -- level.
  new_log-again :
      (file file' : Str) (cfg : Value)
      → is_map cfg ≡ true
      → let l = new_log json file cfg in
        (l.level ≤ 6)
        × (as_str (get (codes "level") l.cfg) ≡ level_name levels l.level)
        × ((new_log json file' l.cfg).level ≡ l.level)
  new_log-again file file' cfg h =
      let (c, is, bound, e) = new_log-cfg file cfg h in
      let n = (new_log json file cfg).level in
      (
        bound,
        ap (λ z. as_str (get (codes "level") z)) e ∙ get-put_level n c is,
        ap (λ z. (new_log json file' z).level) e ∙ new_log-level n file' c is bound,
      )
