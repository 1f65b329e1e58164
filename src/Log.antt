-- ===== src/Log.antt =====
-- Class log of src/log.cpp: the levels and what is written.
pub mod Levels
use watched_agent.Base.{
  ℕ, zero, suc, ◌-◌, ◌+◌, Bool, true, false, ◌&&◌, List, [], ◌∷◌, ◌++◌, Option, none, some,
  if◌then◌else◌, Str, str_eq, ltb, leb, codes, map,
}
use watched_agent.Json.{Json}

-- log::levels
abbrev pub levels : List Str
levels =
    codes "NONE"
    ∷ codes "ERROR"
    ∷ codes "WARN"
    ∷ codes "NOTICE"
    ∷ codes "INFO"
    ∷ codes "DEBUG"
    ∷ codes "ALL"
    ∷ []

-- toupper in the "C" locale.
unfoldable pub to_upper : ℕ → ℕ
to_upper c = if leb 97 c && leb c 122 then c - 32 else c

unfoldable pub upper : Str → Str
unfolding to_upper
upper s = map to_upper s

-- The loops over levels: `found` is the number found so far, and the last equal name is kept.
unfoldable pub scan_levels : Str → ℕ → List Str → ℕ → ℕ
scan_levels lvl i [] found = found
scan_levels lvl i (l ∷ ls) found = scan_levels lvl (i + 1) ls (if str_eq l lvl then i else found)

-- The number of a level: NOTICE if there is no such name.
unfoldable pub level_of : Str → ℕ
unfolding upper scan_levels
level_of name = scan_levels (upper name) 0 levels 3

unfoldable pub level_name : List Str → ℕ → Str
level_name [] i = []
level_name (l ∷ ls) zero = l
level_name (l ∷ ls) (suc i) = level_name ls i

-- The state of a log: its configuration and its level.
pub data Sent : Type 0 where
  nothing : Sent
  line : Str → Str → Str → Sent

module _ (json : Json) where
  open json use {Value, is_member, get, put, of_str, as_str}

  pub record Log : Type 0 where
    pub cfg : Value
    pub level : ℕ

  -- log::log
  unfoldable pub with_default : Str → Value → Value → Value
  with_default key x cfg = if is_member key cfg then cfg else put key x cfg

  unfoldable pub new_log : Str → Value → Log
  unfolding with_default
  new_log file cfg =
      let c =
        with_default (codes "level") (of_str (codes "NOTICE"))
          (with_default (codes "file") (of_str file) cfg) in
      let l = level_of (as_str (get (codes "level") c)) in
      record { cfg = put (codes "level") (of_str (level_name levels l)) c; level = l }

  -- log::write(uint16_t, ...): the level's name, the source and the message of the line, without
  -- the date.
  unfoldable pub write : ℕ → Str → Str → Log → Sent
  write lvl src message l =
      if ltb l.level lvl then nothing else line (level_name levels lvl) src message

  -- log::write(std::string, ...)
  unfoldable pub write_named : Str → Str → Str → Log → Sent
  unfolding write
  write_named name src message l = write (level_of name) src message l
