-- ===== src/Application/Launches.antt =====
-- What is so when the program gets as far as the proxy's parts.
use network_proxy.Prelude.{
  Option-cases, if_cases, OnSome, All, Bytes, ◌≡◌, refl, ap, inl, inr, Bool, true, false, not,
  Option, some, List, arith,
}
use network_proxy.Config.Types.{AppConfig, default_config}
use network_proxy.Config
use network_proxy.Config.Load.Ports.{IsInRange}
use network_proxy.Config.Load.InRange.{load_from_file-IsInRange}
use network_proxy.Rules
use network_proxy.Rules.Load.Fields.{IsWellFormed}
use network_proxy.Rules.Load.WellFormed.{load_from_file-IsWellFormed}
use network_proxy.Patch.Engine.{PatchEngine, set_rule_engine}
use network_proxy.Tls.Certificate.{Files, System}
use network_proxy.Tls.Session
use network_proxy.Proxy.{Answers, Launch, Outcome, choose_capture}
use network_proxy.Proxy
use network_proxy.Application.{
  CommandLineOptions, parse_options, Exit, exit_code_of, run_proxy, run_with_rules, run_with_config,
  run,
}

-- An engine with a configuration in range, and with rules that are well formed.
abbrev pub IsSoundEngine : PatchEngine → Type 0
IsSoundEngine e =
    IsInRange e.config × OnSome (All IsWellFormed) e.rules × (e.config.dry_run ≡ false)

-- What a launch says of the rest of the outcome.
abbrev IsLaunch : System → Exit → Type 0
IsLaunch s x =
    (l : Launch)
    → x.launch ≡ some l
    → (x.code ≡ 0)
      × (x.system ≡ s)
      × (e : PatchEngine) × (x.patch_engine ≡ some e)
      × IsSoundEngine e

-- The same of the proxy's own outcome.
abbrev IsLaunched : AppConfig → Outcome → Type 0
IsLaunched config o =
    (l : Launch) → o.launch ≡ some l → (o.result ≡ true) × (config.dry_run ≡ false)

proxy-IsLaunched :
    (config : AppConfig) (answers : Answers) → IsLaunched config (Proxy.run config answers)
unfolding Proxy.run
proxy-IsLaunched config answers =
    if_cases (IsLaunched config) config.dry_run _ _ (λ _ l h. absurd (cc h))
      λ d.
        if_cases (IsLaunched config) (not answers.winsock_starts) _ _ (λ _ l h. absurd (cc h))
          λ _.
            if_cases (IsLaunched config)
              (not (Session.initialize answers.makes_directory config answers.files)) _ _
              (λ _ l h. absurd (cc h))
              λ _. elim (Option-cases (choose_capture config answers)) [
                | inl c ↦ rw c (λ l h. absurd (cc h))
                | inr (captures, c) ↦ rw c (λ l h. (refl, d))
              ]

run_proxy-IsLaunch :
    (config : AppConfig) (answers : Answers) (s : System) (e : PatchEngine)
    → IsInRange config
    → e.config ≡ config
    → OnSome (All IsWellFormed) e.rules
    → IsLaunch s (run_proxy config answers s e)
unfolding run_proxy
run_proxy-IsLaunch config answers s e i c w l h =
    let (r, d) = proxy-IsLaunched config (record answers { files = s.files }) l h in
    (ap exit_code_of r, refl, e, refl, (rw c i, w, rw c d))

run_with_rules-IsLaunch :
    (config : AppConfig) (rules_text : Option Bytes) (answers : Answers) (s : System)
    → IsInRange config
    → IsLaunch s (run_with_rules config rules_text answers s)
unfolding run_with_rules set_rule_engine
run_with_rules-IsLaunch config rules_text answers s i =
    if_cases (IsLaunch s) (not config.rules_enabled) _ _
      (λ _. run_proxy-IsLaunch config answers s _ i refl tt)
      λ _. elim (Option-cases (Rules.Load.load_from_file rules_text).error) [
        | inr (e, f) ↦ rw f (λ l h. absurd (cc h))
        | inl f ↦
            rw f (
              run_proxy-IsLaunch config answers s _ i refl (load_from_file-IsWellFormed rules_text))
      ]

module _ (command : Bytes → Files → Bool × Files) (text_of : Bytes → Option Bytes) where
  run_with_config-IsLaunch :
      (options : CommandLineOptions) (config : AppConfig) (answers : Answers) (s : System)
      → IsInRange config
      → IsLaunch s (run_with_config command text_of options config answers s)
  unfolding run_with_config
  run_with_config-IsLaunch options config answers s i =
      if_cases (IsLaunch s) options.install_ca _ _ (λ _ l h. absurd (cc h))
        λ _.
          if_cases (IsLaunch s) options.uninstall_ca _ _ (λ _ l h. absurd (cc h))
            λ _. run_with_rules-IsLaunch config (text_of config.rules_file_path) answers s i

default-IsInRange : IsInRange default_config
default-IsInRange = (omega arith, omega arith, omega arith, omega arith, omega arith)

run-IsLaunch :
    (command : Bytes → Files → Bool × Files) (text_of : Bytes → Option Bytes)
    (arguments : List Bytes) (answers : Answers) (s : System)
    → IsLaunch s (run command text_of arguments answers s)
unfolding run
run-IsLaunch command text_of arguments answers s =
    let options = parse_options arguments in
    let text = text_of options.config_path in
    elim (Option-cases (Config.Load.load_from_file default_config text).error) [
      | inr (e, f) ↦ rw (run, f) (λ l h. absurd (cc h))
      | inl f ↦
          rw (run, f)
            (run_with_config-IsLaunch command text_of options _ answers s
              (load_from_file-IsInRange default_config text default-IsInRange))
    ]

-- Whatever the command line and the files say: where the program gets as far as to launch the
-- proxy's parts, its exit code is 0, it has run no command and changed no file before, and the patch
-- engine has a configuration that does not run dry, with its ports and its time limit in the range of
-- their types, and rules, where it has rules, that are all well formed.
pub run-launch :
    (command : Bytes → Files → Bool × Files) (text_of : Bytes → Option Bytes)
    (arguments : List Bytes) (answers : Answers) (s : System) (l : Launch)
    → (run command text_of arguments answers s).launch ≡ some l
    → ((run command text_of arguments answers s).code ≡ 0)
      × ((run command text_of arguments answers s).system ≡ s)
      × (e : PatchEngine) × ((run command text_of arguments answers s).patch_engine ≡ some e)
      × IsSoundEngine e
run-launch command text_of arguments answers s l h =
    run-IsLaunch command text_of arguments answers s l h
