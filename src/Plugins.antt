-- ===== src/Plugins.antt =====
-- The loops over the directories of configurations and plugins: servicesManager::init of
-- src/servicesManager.cpp and CollectorsManager::CollectorsManager of src/collectors.cpp.
pub mod Suffixes
pub mod Firsts
use watched_agent.Base.{
  ℕ, Bool, true, false, ◌&&◌, ◌||◌, not, List, [], ◌∷◌, ◌++◌, Option, none, some, if◌then◌else◌,
  Str, str_eq, codes, lookup, insert, ◌>>=◌, ◌==◌,
}
use watched_agent.Text.{rfind_char, substr, npos}
use watched_agent.Process.{starts_with_dot}
use watched_agent.Server.{is_directory}

-- An entry of a directory, and st_mode if stat succeeds.
pub record Entry : Type 0 where
  pub name : Str
  pub mode : Option ℕ

-- The entry is not passed over: its name does not begin with a dot, and it is no directory.
unfoldable pub is_visible : Entry → Bool
is_visible e =
    if starts_with_dot e.name
    then false
    else elim e.mode [ none ↦ false | some mode ↦ not (is_directory mode) ]

-- file_name.substr(file_name.rfind(".")); `none` is the exception std::out_of_range.
unfoldable pub extension : Str → Option Str
extension name = substr name (rfind_char b'.' name) npos

-- file_name.substr(0, file_name.rfind(".")), which is the whole name if there is no dot.
unfoldable pub stem : Str → Option Str
stem name = substr name 0 (rfind_char b'.' name)

-- The loops over the configurations and over the compiled plugins: the names of the files that are
-- opened, in order.
unfoldable pub load_files : Str → List Entry → Option (List Str)
load_files ext [] = some []
load_files ext (e ∷ es) =
    let rest = load_files ext es in
    if is_visible e
    then (extension e.name >>= λ found.
        rest >>= λ names. some (if str_eq found ext then e.name ∷ names else names))
    else rest

-- What a Lua plugin is, as LuaSorter finds out.
pub data Kind : Type 0 where
  collector log_parser enhancer handler detector : Kind

-- The files of the plugins, with the names of those that are looked up by name.
pub record Factories : Type 0 where
  pub collectors : List (Str × Str)
  pub parsers : List (Str × Str)
  pub handlers : List (Str × Str)
  pub enhancers : List Str
  pub detectors : List (Str × Str)

-- factory.find(name) == factory.end(), and then the new one is put in.
unfoldable pub put_new : Str → Str → List (Str × Str) → List (Str × Str)
put_new name file factory = elim (lookup str_eq name factory) [
  | some x ↦ factory
  | none ↦ insert str_eq name file factory
]

module _ (is_type : Str → Kind → Bool) where
  -- The body of the loop for a Lua file.
  unfoldable pub add_lua : Str → Str → Factories → Factories
  unfolding put_new
  add_lua name file f = record {
    collectors = if is_type file collector then put_new name file f.collectors else f.collectors;
    parsers = if is_type file log_parser then put_new name file f.parsers else f.parsers;
    handlers = if is_type file handler then put_new name file f.handlers else f.handlers;
    enhancers = if is_type file enhancer then f.enhancers ++ file ∷ [] else f.enhancers;
    detectors = if is_type file detector then f.detectors ++ (name, file) ∷ [] else f.detectors;
  }

  -- One round of the loop over the Lua plugins of services, in the directory `dir`.
  unfoldable pub visit_lua : Str → Entry → Factories → Option Factories
  unfolding add_lua
  visit_lua dir e f = do
    name ← stem e.name
    let file = dir ++ (b'/' ∷ e.name)
    let more = extension e.name >>= λ ext.
        some (if str_eq ext (codes ".lua") then add_lua name file f else f)
    (if is_visible e then more else some f)

  unfoldable pub load_lua : Str → List Entry → Factories → Option Factories
  unfolding visit_lua
  load_lua dir [] f = some f
  load_lua dir (e ∷ es) f = visit_lua dir e f >>= λ g. load_lua dir es g

-- The loop over the Lua collectors of the system: `known` are the names of the collectors.
unfoldable pub visit_system_lua : Str → Entry → List (Str × Str) → Option (List (Str × Str))
visit_system_lua dir e known = do
  name ← stem e.name
  let file = dir ++ (b'/' ∷ e.name)
  let more = extension e.name >>= λ ext.
      some (if str_eq ext (codes ".lua") then put_new name file known else known)
  (if is_visible e then more else some known)

unfoldable pub load_system_lua : Str → List Entry → List (Str × Str) → Option (List (Str × Str))
load_system_lua dir [] known = some known
load_system_lua dir (e ∷ es) known =
    visit_system_lua dir e known >>= λ more. load_system_lua dir es more
