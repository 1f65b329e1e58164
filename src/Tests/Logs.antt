-- ===== src/Tests/Logs.antt =====
-- Runs of the logs and the configuration, over a concrete JSON document.
use watched_agent.Base.{
  ℕ, ◌≡◌, ◌++◌, ◌∷◌, [], refl, arith, some, Str, codes, false, if◌then◌else◌, length, take, str_eq,
  inl, inr, map, Bool-cases,
}
use watched_agent.Tests.Document.{Tree, Fields, document, tree_is_map, get_tree, find_field}
use watched_agent.LogParser.{Level, Plugin, LogParser, parse_log, is_at, is_rotated, lines_from}
use watched_agent.LogParser.Following.{unlines, view, logged, parse_log-logged, parse_log-once}
use watched_agent.Config.{Macros}
use watched_agent.Config.Defaults.{IsConfig}

-- Each line is a warning of one date.
abbrev plugin : Plugin
plugin = record { get_level = λ l. Level.warning; get_date = λ l. codes "now" }

abbrev parser : LogParser document
parser = record {
  cfg = Tree.fields (Fields.field (codes "history") (Tree.number 3) Fields.stop);
  v = [];
  pos = some 0;
  line_no = 0;
}

abbrev times : ℕ → Tree
times n = Tree.number n

abbrev log_text : Str
log_text = unlines (codes "ab" ∷ codes "cd" ∷ [])

at-start : is_at (some 0) (length log_text) ≡ false
unfolding is_at
at-start = refl

parse_log-logged_example :
    map (view document) (parse_log document plugin times (some log_text) parser).v
    ≡ take 3 (
        logged document plugin
          (if is_rotated (some 0) (length log_text) then 0 else 0)
          (lines_from (if is_rotated (some 0) (length log_text) then some 0 else some 0) log_text)
        ++ [])
unfolding logged get_tree lines_from find_field is_rotated str_eq
parse_log-logged_example =
    parse_log-logged document plugin times log_text parser (omega arith) at-start

parse_log-once_example :
    parse_log document plugin times
      (some (codes "x"))
      (parse_log document plugin times (some log_text) parser)
    ≡ parse_log document plugin times (some log_text) parser
parse_log-once_example =
    parse_log-once document plugin times times log_text (some (codes "x")) parser at-start

abbrev macros : Macros
macros = record {
  web_root = codes "/w";
  ssl_key = codes "/k";
  ssl_cert = codes "/c";
  ssl_verify = codes "/v";
  services_dir = codes "/s";
  services_so = codes "/so";
  services_lua = codes "/lua";
  collectors_so = codes "/cso";
  collectors_lua = codes "/clua";
}

-- A configuration that sets the port and the number of threads.
abbrev user_cfg : Tree
user_cfg = Tree.fields (
    Fields.field (codes "server")
      (Tree.fields (
        Fields.field (codes "port") (Tree.number 80)
          (Fields.field (codes "threads") (Tree.number 2) Fields.stop)))
      Fields.stop)

user_cfg-IsConfig : IsConfig document user_cfg
unfolding tree_is_map get_tree find_field
user_cfg-IsConfig = (
  refl,
  λ s h. elim (Bool-cases (str_eq (codes "server") s)) [ inl e ↦ rw e refl | inr e ↦ rw e refl ],
)
