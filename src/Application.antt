-- ===== src/Application.antt =====
-- src/app/application.cpp: the command line, and the order of what the program does. The files' texts,
-- the commands' effects and what the proxy's parts are answered are arguments.
pub mod Launches
use network_proxy.Prelude.{
  if◌then◌else◌, is_some, Bytes, codes, eqb, ℕ, Bool, true, false, not, Option, none, some, List,
  [], ◌∷◌,
}
use network_proxy.Config.Types.{AppConfig, default_config}
use network_proxy.Config
use network_proxy.Rules
use network_proxy.Patch.Engine.{PatchEngine, set_rule_engine}
use network_proxy.Tls.Certificate.{Files, System, install_root_ca, uninstall_root_ca}
use network_proxy.Proxy.{Answers, Launch}
use network_proxy.Proxy

pub record CommandLineOptions : Type 0 where
  pub config_path : Bytes
  pub install_ca : Bool
  pub uninstall_ca : Bool

abbrev pub default_options : CommandLineOptions
default_options = record {
  config_path = codes "config/proxy.yaml";
  install_ca = false;
  uninstall_ca = false;
}

-- A round of the loop where the argument takes no other with it.
unfoldable pub set_option : Bytes → CommandLineOptions → CommandLineOptions
set_option argument options =
    if eqb argument (codes "--install-ca")
    then record options { install_ca = true }
    else if eqb argument (codes "--uninstall-ca")
    then record options { uninstall_ca = true }
    else options

-- The arguments behind the program's name.
unfoldable pub parse_loop : List Bytes → CommandLineOptions → CommandLineOptions
unfolding set_option
parse_loop [] options = options
parse_loop (argument ∷ []) options = set_option argument options
parse_loop (argument ∷ value ∷ arguments) options =
    let behind = parse_loop arguments (record options { config_path = value }) in
    let next = parse_loop (value ∷ arguments) (set_option argument options) in
    if eqb argument (codes "--config") then behind else next

abbrev pub parse_options : List Bytes → CommandLineOptions
parse_options arguments = parse_loop arguments default_options

-- The exit code, the files and commands at the end, the patch engine that the proxy was given, where
-- it was reached, and what it launched.
pub record Exit : Type 0 where
  pub code : ℕ
  pub system : System
  pub patch_engine : Option PatchEngine
  pub launch : Option Launch

abbrev pub exit_code_of : Bool → ℕ
exit_code_of ok = if ok then 0 else 1

-- From `ProxyServer proxy_server(…)` on.
unfoldable pub run_proxy : AppConfig → Answers → System → PatchEngine → Exit
run_proxy config answers s engine =
    let outcome = Proxy.run config (record answers { files = s.files }) in
    record {
      code = exit_code_of outcome.result;
      system = s;
      patch_engine = some engine;
      launch = outcome.launch;
    }

-- From `PatchEngine patch_engine(…)` on.
unfoldable pub run_with_rules : AppConfig → Option Bytes → Answers → System → Exit
unfolding run_proxy
run_with_rules config rules_text answers s =
    let engine : PatchEngine = record { config = config; rules = none } in
    let loaded = Rules.Load.load_from_file rules_text in
    if not config.rules_enabled then run_proxy config answers s engine else elim loaded.error [
      | some e ↦ record { code = 1; system = s; patch_engine = none; launch = none }
      | none ↦ run_proxy config answers s (set_rule_engine loaded.rules engine)
    ]

-- `text_of` is the text of a file, or `none` where it cannot be opened.
module _ (command : Bytes → Files → Bool × Files) (text_of : Bytes → Option Bytes) where
  -- From the logger on.
  unfoldable pub run_with_config : CommandLineOptions → AppConfig → Answers → System → Exit
  unfolding run_with_rules
  run_with_config options config answers s =
      let (installed, install_error) =
        install_root_ca command config.https_ca_cert_path config.https_install_to_current_user s in
      let (uninstalled, uninstall_error) =
        uninstall_root_ca command config.https_ca_subject_name config.https_install_to_current_user
          s in
      if options.install_ca
      then record {
        code = exit_code_of (not (is_some install_error));
        system = installed;
        patch_engine = none;
        launch = none;
      }
      else if options.uninstall_ca
      then record {
        code = exit_code_of (not (is_some uninstall_error));
        system = uninstalled;
        patch_engine = none;
        launch = none;
      }
      else run_with_rules config (text_of config.rules_file_path) answers s

  unfoldable pub run : List Bytes → Answers → System → Exit
  unfolding run_with_config parse_loop
  run arguments answers s =
      let options = parse_options arguments in
      let loaded = Config.Load.load_from_file default_config (text_of options.config_path) in
      elim loaded.error [
        | some e ↦ record { code = 1; system = s; patch_engine = none; launch = none }
        | none ↦ run_with_config options loaded.config answers s
      ]
