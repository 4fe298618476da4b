-- ===== src/Tests/Launches.antt =====
-- Systems on which the theorems about the start of the program are applied.
use network_proxy.Prelude.{
  if◌then◌else◌, Bytes, codes, find_char, is_space, to_lower_byte, getlines, ◌≡◌, refl, Bool, true,
  false, Option, some, [], ◌∷◌,
}
use network_proxy.Application.{Exit}
use network_proxy.Application.Launches.{IsSoundEngine, run-launch}
use network_proxy.Common.{trim_copy, split_once, to_lower_copy}
use network_proxy.Application
use network_proxy.Capture.Divert.{Functions}
use network_proxy.Capture.Divert
use network_proxy.Capture.Redirect.{new_controller}
use network_proxy.Capture.Redirect
use network_proxy.Config
use network_proxy.Proxy
use network_proxy.Config.Types.{AppConfig, default_config}
use network_proxy.Capture.Wfp.{new_wfp_capture}
use network_proxy.Capture.Wfp
use network_proxy.Patch.Engine.{PatchEngine}
use network_proxy.Proxy.{none_active, wfp, win_divert, Launch, Answers, Captures, choose_capture}
use network_proxy.Proxy.Backend.{IsReady, choose_capture-fallback}
use network_proxy.Tls.Certificate.{Files, System}
use network_proxy.Tls.Session

abbrev always : Bytes → Bool
always path = true

abbrev succeeds : Bytes → Files → Bool × Files
succeeds command files = (true, files)

abbrev empty_system : System
empty_system = record { files = []; commands = [] }

abbrev all_functions : Functions
all_functions = record {
  windivert_open = true;
  windivert_close = true;
  windivert_recv = true;
  windivert_send = true;
  windivert_calc_checksums = true;
}

abbrev proxy_answers : Answers
proxy_answers = record {
  winsock_starts = true;
  files = [];
  makes_directory = always;
  wfp_opens = true;
  wfp_subscribes = true;
  divert_library = some all_functions;
  divert_opens = true;
}

-- A redirect without a channel.
abbrev no_channel : AppConfig
no_channel = record default_config {
  dry_run = false;
  capture_enabled = true;
  use_wfp = true;
  use_windivert = true;
  wfp_redirect_enabled = true;
  wfp_callout_channel = [];
}

no_channel-loads :
    (Divert.initialize (some all_functions) true (Divert.new_win_divert_capture no_channel)).1
    ≡ true
unfolding Divert.initialize Divert.bind_functions
no_channel-loads = refl

no_channel-IsReady : IsReady no_channel proxy_answers
no_channel-IsReady = record {
  capture = refl;
  wfp = refl;
  divert = refl;
  redirect = refl;
  opens = refl;
  subscribes = refl;
  loads = no_channel-loads;
}

no_channel-fails : (Redirect.initialize (new_controller no_channel)).1 ≡ false
unfolding Redirect.initialize
no_channel-fails = refl

choose_capture-fallback_example :
    (c : Captures) × (choose_capture no_channel proxy_answers ≡ some c)
    × (c.wfp_capture.redirect_controller.bridge.applied ≡ false)
    × (c.wfp_capture.fallback_requested ≡ true)
    × (c.win_divert_capture.divert_handle ≡ false)
    × (c.active_capture_backend ≡ (if true then wfp else win_divert))
choose_capture-fallback_example =
    choose_capture-fallback no_channel proxy_answers no_channel-IsReady no_channel-fails

-- A configuration that switches the rules and the dry run off.
abbrev settings : Bytes → Option Bytes
settings path = some (codes "rules:\nenabled: false\nruntime:\ndry_run: false\n")

abbrev ran : AppConfig
ran = record default_config { dry_run = false; rules_enabled = false }

abbrev launched : Launch
launched = record {
  captures = record {
    active_capture_backend = none_active;
    wfp_capture = new_wfp_capture ran;
    win_divert_capture = Divert.new_win_divert_capture ran;
  };
  tcp_thread = true;
  udp_thread = true;
}

abbrev outcome : Exit
outcome =
    Application.run succeeds settings (codes "--config" ∷ codes "p.yaml" ∷ []) proxy_answers
      empty_system

outcome-launched : outcome.launch ≡ some launched
unfolding Application.run Config.Load.load_from_file getlines Config.Load.process_line trim_copy
    is_space find_char split_once Config.Keys.set_key Config.Parse.parse_bool to_lower_copy
    to_lower_byte Proxy.run Session.initialize
outcome-launched = refl

run-launch_example :
    (outcome.code ≡ 0)
    × (outcome.system ≡ empty_system)
    × (e : PatchEngine) × (outcome.patch_engine ≡ some e)
    × IsSoundEngine e
run-launch_example =
    run-launch succeeds settings (codes "--config" ∷ codes "p.yaml" ∷ []) proxy_answers empty_system
      launched outcome-launched
