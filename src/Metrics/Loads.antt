-- ===== src/Metrics/Loads.antt =====
-- The collectors of the system's load and uptime, collectors/cpuload.cpp and collectors/uptime.cpp,
-- and url_encode of collectors/diskusage.cpp.
use watched_agent.Base.{
  ℕ, ◌+◌, ◌/◌, ◌%◌, Bool, ◌&&◌, ◌||◌, List, [], ◌∷◌, Option, some, if◌then◌else◌, Str, ltb, leb,
  ◌==◌, codes, ◌>>=◌,
}
use watched_agent.Json.{Json}
use watched_agent.Text.{sub_size, find_char, find_char_at, substr}
use watched_agent.Resource.{Counter, Resource, next_value, set_property}

-- isalnum in the "C" locale, and the four other bytes that are kept.
unfoldable pub is_kept : ℕ → Bool
is_kept c =
    (leb 48 c && leb c 57)
    || ((leb 65 c && leb c 90)
        || ((leb 97 c && leb c 122)
            || ((c == b'-') || ((c == b'_') || ((c == b'.') || (c == b'~'))))))

unfoldable pub upper_hex : ℕ → ℕ
upper_hex d = if ltb d 10 then d + 48 else d + 55

-- url_encode
unfoldable pub url_encode : Str → Str
url_encode [] = []
url_encode (c ∷ s) =
    let rest = url_encode s in
    if is_kept c then c ∷ rest else b'%' ∷ upper_hex (c / 16) ∷ upper_hex (c % 16) ∷ rest

-- `stod` is std::stod; `none` is its exception.
module _ (json : Json) (stod : Str → Option json.Double) where
  open json use {Value, of_double}

  -- Uptime::collect
  unfoldable collect_uptime :
      Value → List Str → Resource json × Counter → Option (Resource json × Counter)
  collect_uptime now [] s = some s
  collect_uptime now (line ∷ lines) s = do
    let (r, c) = next_value json now s.0 s.1
    text ← substr line 0 (find_char b' ' line)
    x ← stod text
    r' ← set_property json (codes "uptime") (of_double x) r
    collect_uptime now lines (r', c)

  -- CpuLoadCollector::collect, on a line with two spaces.
  unfoldable set_loads : Str → Resource json → Option (Resource json)
  set_loads line r = do
    let pos = find_char b' ' line
    let pos2 = find_char_at b' ' line (pos + 1)
    t1 ← substr line 0 pos
    x1 ← stod t1
    r1 ← set_property json (codes "avg1") (of_double x1) r
    t5 ← substr line pos (sub_size pos2 pos)
    x5 ← stod t5
    r5 ← set_property json (codes "avg5") (of_double x5) r1
    t15 ← substr line pos2 (sub_size (find_char_at b' ' line (pos2 + 1)) pos2)
    x15 ← stod t15
    set_property json (codes "avg15") (of_double x15) r5

  unfoldable collect_load :
      Value → List Str → Resource json × Counter → Option (Resource json × Counter)
  collect_load now [] s = some s
  collect_load now (line ∷ lines) s = do
    let (r, c) = next_value json now s.0 s.1
    r' ← set_loads line r
    collect_load now lines (r', c)
