-- ===== src/Config.antt =====
-- Class Config of src/config.cpp: the defaults that the agent's configuration is completed with.
pub mod Defaults
use watched_agent.Base.{ℕ, Bool, true, false, ◌&&◌, List, [], ◌∷◌, if◌then◌else◌, Str, codes}
use watched_agent.Json.{Json}

-- The macros that the build defines.
pub record Macros : Type 0 where
  pub web_root : Str
  pub ssl_key : Str
  pub ssl_cert : Str
  pub ssl_verify : Str
  pub services_dir : Str
  pub services_so : Str
  pub services_lua : Str
  pub collectors_so : Str
  pub collectors_lua : Str

module _ (json : Json) where
  open json use {Value, object, is_member, get, put, of_ℕ, of_bool, of_str}

  -- A default: where it stands, and its value.
  pub record Default : Type 0 where
    pub section : Str
    pub key : Str
    pub value : Value

  unfoldable pub defaults : Macros → List Default
  defaults m =
      record { section = codes "server"; key = codes "host"; value = of_str [] }
      ∷ record { section = codes "server"; key = codes "port"; value = of_ℕ 9080 }
      ∷ record { section = codes "server"; key = codes "web_root"; value = of_str m.web_root }
      ∷ record { section = codes "server"; key = codes "useSSL"; value = of_bool false }
      ∷ record { section = codes "server"; key = codes "SSL_key"; value = of_str m.ssl_key }
      ∷ record { section = codes "server"; key = codes "SSL_cert"; value = of_str m.ssl_cert }
      ∷ record { section = codes "server"; key = codes "SSL_verify"; value = of_str m.ssl_verify }
      ∷ record {
        section = codes "services";
        key = codes "config_dir";
        value = of_str m.services_dir;
      }
      ∷ record { section = codes "services"; key = codes "find_frequency"; value = of_ℕ 120 }
      ∷ record {
        section = codes "plugins";
        key = codes "services_cpp";
        value = of_str m.services_so;
      }
      ∷ record {
        section = codes "plugins";
        key = codes "services_lua";
        value = of_str m.services_lua;
      }
      ∷ record {
        section = codes "plugins";
        key = codes "collectors_cpp";
        value = of_str m.collectors_so;
      }
      ∷ record {
        section = codes "plugins";
        key = codes "collectors_lua";
        value = of_str m.collectors_lua;
      }
      ∷ []

  -- data[section][key] = x
  unfoldable pub put_in : Str → Str → Value → Value → Value
  put_in section key x data' = put section (put key x (get section data')) data'

  -- data.isMember(section) && data[section].isMember(key)
  unfoldable pub has_in : Str → Str → Value → Bool
  has_in section key data' = is_member section data' && is_member key (get section data')

  -- The first test looks for "thread" and sets "threads".
  unfoldable pub with_threads : Value → Value
  unfolding has_in put_in
  with_threads data' =
      if has_in (codes "server") (codes "thread") data'
      then data'
      else put_in (codes "server") (codes "threads") (of_ℕ 8) data'

  unfoldable pub with_defaults : List Default → Value → Value
  unfolding has_in put_in
  with_defaults [] data' = data'
  with_defaults (d ∷ ds) data' =
      with_defaults ds
        (if has_in d.section d.key data' then data' else put_in d.section d.key d.value data')

  -- Config::Config behind the reading of the file.
  unfoldable pub load : Macros → Value → Value
  unfolding with_threads with_defaults
  load m data' = with_defaults (defaults m) (with_threads data')

  -- Config::getCollector, which also adds what it returns; getAgent and getLog.
  unfoldable pub get_collector : Str → Value → Value
  unfolding has_in put_in
  get_collector name data' =
      if has_in (codes "collectors") name data'
      then data'
      else put_in (codes "collectors") name object data'

  unfoldable pub get_section : Str → Value → Value
  get_section name data' = if is_member name data' then data' else put name object data'

  unfoldable pub get_agent : Value → Value
  unfolding get_section
  get_agent data' = get_section (codes "agent") data'

  unfoldable pub get_log : Value → Value
  unfolding get_section
  get_log data' = get_section (codes "log") data'

  -- service::getCollectorCfg and service::getParserCfg of src/services.cpp, on a service's own
  -- configuration.
  unfoldable pub get_collector_cfg : Str → Value → Value
  unfolding get_collector
  get_collector_cfg name cfg = get_collector name cfg

  unfoldable pub get_parser_cfg : Str → Value → Value
  unfolding has_in put_in
  get_parser_cfg name cfg =
      if has_in (codes "parsers") name cfg then cfg else put_in (codes "parsers") name object cfg
