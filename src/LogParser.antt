-- ===== src/LogParser.antt =====
-- Class logParser of src/services.cpp: how the log of a service is followed. The source's thread
-- and its destructor are those of class Collector. A position of `none` is pos_type(-1).
pub mod Following
pub mod Thread
use watched_agent.Base.{
  ℕ, zero, suc, ◌+◌, ◌%◌, ◌^◌, Bool, true, false, ◌&&◌, not, List, [], ◌∷◌, ◌++◌, Option, none,
  some, if◌then◌else◌, Str, length, take, drop, ltb, ◌==◌, codes,
}
use watched_agent.Json.{Json}
use watched_agent.Resource.{Resource, push_copy, get_history}

-- logParser::levels
pub data Level : Type 0 where
  ok : Level
  info : Level
  notice : Level
  warning : Level
  error : Level
  critical : Level

-- The two methods that a plugin gives.
pub record Plugin : Type 0 where
  pub get_level : Str → Level
  pub get_date : Str → Str

-- The lines that getline reads from a text: one that no line end stops is a line unless it is empty.
unfoldable pub lines_of : Str → Str → List Str
lines_of [] [] = []
lines_of (b ∷ line) [] = (b ∷ line) ∷ []
lines_of line (c ∷ cs) =
    let stopped = lines_of [] cs in
    let longer = lines_of (line ++ c ∷ []) cs in if c == 10 then line ∷ stopped else longer

-- The switch over the levels.
unfoldable pub level_text : Level → Str
level_text notice = codes "notice"
level_text warning = codes "warning"
level_text error = codes "error"
level_text critical = codes "critical"
level_text _ = codes "info"

-- getLevel(line) is not ok, and getDate(line) is not empty.
unfoldable pub is_report : Plugin → Str → Bool
is_report p line = elim (p.get_level line) [
  | ok ↦ false
  | _ ↦ elim (p.get_date line) [ [] ↦ false | c ∷ cs ↦ true ]
]

-- infile.seekg(pos) and the loop: no line is read from a position of -1.
unfoldable pub lines_from : Option ℕ → Str → List Str
lines_from none text = []
lines_from (some n) text = lines_of [] (drop n text)

unfoldable pub is_at : Option ℕ → ℕ → Bool
is_at none size = false
is_at (some n) size = size == n

unfoldable pub is_rotated : Option ℕ → ℕ → Bool
is_rotated none size = false
is_rotated (some n) size = ltb size n

module _ (json : Json) where
  open json use {Value, is_member, get, put, of_ℕ, of_bool, of_str, as_ℕ, Double}

  pub record LogParser : Type 0 where
    pub cfg : Value
    pub v : List Value
    pub pos : Option ℕ
    pub line_no : ℕ

  unfoldable pub default_value : Str → Bool → Value → Value → Value
  default_value key wanted x cfg = if not (is_member key cfg) && wanted then put key x cfg else cfg

  -- logParser::logParser
  unfoldable pub new_parser : ℕ → ℕ → Value → LogParser
  unfolding default_value
  new_parser history freq cfg = record {
    cfg = default_value (codes "enable") true (of_bool true) (
        default_value (codes "poll-frequency") (ltb 0 freq) (of_ℕ freq)
          (default_value (codes "history") (ltb 0 history) (of_ℕ history) cfg));
    v = [];
    pos = some 0;
    line_no = 0;
  }

  -- The members of v[0].
  unfoldable pub fill : Plugin → Value → ℕ → Str → Value → Value
  fill p now n line x = put (codes "level") (of_str (level_text (p.get_level line))) (
      put (codes "text") (of_str line) (
        put (codes "line_no") (of_ℕ n)
          (put (codes "date_mark") (of_str (p.get_date line)) (put (codes "timestamp") now x))))

  unfoldable pub fill_first : Plugin → Value → ℕ → Str → List Value → List Value
  fill_first p now n line [] = []
  fill_first p now n line (x ∷ xs) = fill p now n line x ∷ xs

  -- v.resize(history), when there are more values.
  unfoldable pub cut : ℕ → List Value → List Value
  cut n v = if ltb n (length v) then take n v else v

  -- The getline loop: `clock n` is the time when line n is read.
  unfoldable pub parse_lines : Plugin → (ℕ → Value) → ℕ → List Str → ℕ → List Value → ℕ × List Value
  parse_lines p clock size [] n v = (n, v)
  parse_lines p clock size (line ∷ lines) n v =
      let n' = (n + 1) % 2 ^ 64 in
      parse_lines p clock size lines n' (
        if is_report p line
        then cut size (fill_first p (clock n') n' line (push_copy json v))
        else v)

  -- The part of parseLog that reads. At the end infile has failed, so that tellg is -1.
  unfoldable pub read_log : Plugin → (ℕ → Value) → Str → LogParser → LogParser
  unfolding parse_lines lines_from
  read_log p clock text s =
      let (n, v) =
        parse_lines p clock (as_ℕ (get (codes "history") s.cfg)) (lines_from s.pos text) s.line_no
          s.v in
      record s { v = v; pos = none; line_no = n }

  -- logParser::parseLog, on the text of the file, or `none` when it cannot be opened.
  unfoldable pub parse_log : Plugin → (ℕ → Value) → Option Str → LogParser → LogParser
  unfolding read_log is_at is_rotated
  parse_log p clock none s = s
  parse_log p clock (some text) s =
      if is_at s.pos (length text)
      then s
      else read_log p clock text
          (if is_rotated s.pos (length text) then record s { pos = some 0; line_no = 0 } else s)

  -- logParser::getHistory
  unfoldable pub get_log_history : Double → LogParser → Str
  get_log_history since s = get_history json since (record { v = s.v; size = length s.v })
