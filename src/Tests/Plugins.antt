-- ===== src/Tests/Plugins.antt =====
-- A directory of plugins.
use watched_agent.Base.{List, [], ◌∷◌, none, some, codes, str_eq, refl, ◌≡◌, arith, if◌then◌else◌}
use watched_agent.Process.{starts_with_dot}
use watched_agent.Server.{is_directory}
use watched_agent.Text.{substr, rfind_char}
use watched_agent.Plugins.{is_visible, extension, Entry, load_files}
use watched_agent.Plugins.Suffixes.{is_readable, names_with, load_files_lem}

abbrev entries : List Entry
entries =
    record { name = codes "."; mode = some 16877 }
    ∷ record { name = codes "web.json"; mode = some 33188 }
    ∷ record { name = codes "web.json.template"; mode = some 33188 }
    ∷ []

load_files_lem_example :
    load_files (codes ".json") entries
    ≡ (if is_readable entries then some (names_with (codes ".json") entries) else none)
load_files_lem_example = load_files_lem (codes "json") (omega arith) entries (omega arith)

abbrev scripts : List Entry
scripts =
    record { name = codes ".."; mode = some 16877 }
    ∷ record { name = codes "cpu.lua"; mode = some 33188 }
    ∷ record { name = codes "cpu.txt"; mode = some 33188 }
    ∷ []

scripts_read : load_files (codes ".lua") scripts ≡ some (codes "cpu.lua" ∷ [])
unfolding str_eq load_files is_visible starts_with_dot is_directory extension substr rfind_char
scripts_read = refl
