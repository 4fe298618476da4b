-- ===== src/Proxy.antt =====
-- src/proxy/proxy_server.cpp: `run`, the order in which the parts are started. What the system answers
-- is one record.
pub mod Backend
use network_proxy.Prelude.{if◌then◌else◌, Bytes, Bool, true, false, not, Option, none, some}
use network_proxy.Config.Types.{AppConfig}
use network_proxy.Capture.Wfp.{WfpCapture, new_wfp_capture}
use network_proxy.Capture.Wfp
use network_proxy.Capture.Divert.{Functions, WinDivertCapture, new_win_divert_capture}
use network_proxy.Capture.Divert
use network_proxy.Tls.Certificate.{Files}
use network_proxy.Tls.Session

pub data CaptureBackend : Type 0 where
  none_active wfp win_divert : CaptureBackend

-- Whether `WSAStartup` succeeds, the files that there are, whether a
-- directory can be made, the two answers of the filtering engine,
-- the library of WinDivert, where it loads, and whether it gives a handle.
pub record Answers : Type 0 where
  pub winsock_starts : Bool
  pub files : Files
  pub makes_directory : Bytes → Bool
  pub wfp_opens : Bool
  pub wfp_subscribes : Bool
  pub divert_library : Option Functions
  pub divert_opens : Bool

-- The capture behind the block that chooses it.
pub record Captures : Type 0 where
  pub active_capture_backend : CaptureBackend
  pub wfp_capture : WfpCapture
  pub win_divert_capture : WinDivertCapture

unfoldable pub choose_wfp : AppConfig → Answers → Captures
choose_wfp config answers =
    let (w, ok) =
      Wfp.initialize answers.wfp_opens answers.wfp_subscribes (new_wfp_capture config) in
    let idle : Captures = record {
      active_capture_backend = none_active;
      wfp_capture = new_wfp_capture config;
      win_divert_capture = new_win_divert_capture config;
    } in
    if not config.use_wfp
    then idle
    else record idle { active_capture_backend = if ok then wfp else none_active; wfp_capture = w }

-- The second `if` of the block; `none` is the result `false`.
unfoldable pub choose_win_divert : AppConfig → Answers → Captures → Option Captures
choose_win_divert config answers c =
    let (d, ok) =
      Divert.initialize answers.divert_library answers.divert_opens c.win_divert_capture in
    elim c.active_capture_backend [
      | none_active ↦
          if not config.use_windivert
          then some c
          else if not ok
          then none
          else some (record c { active_capture_backend = win_divert; win_divert_capture = d })
      | wfp ↦ some c
      | win_divert ↦ some c
    ]

unfoldable pub choose_capture : AppConfig → Answers → Option Captures
unfolding choose_wfp choose_win_divert
choose_capture config answers =
    if not config.capture_enabled
    then some (record {
      active_capture_backend = none_active;
      wfp_capture = new_wfp_capture config;
      win_divert_capture = new_win_divert_capture config;
    })
    else choose_win_divert config answers (choose_wfp config answers)

-- The threads that are started.
pub record Launch : Type 0 where
  pub captures : Captures
  pub tcp_thread : Bool
  pub udp_thread : Bool

-- What `run` comes to: the result, whether `WSACleanup` is called, and what is launched.
pub record Outcome : Type 0 where
  pub result : Bool
  pub cleans_up : Bool
  pub launch : Option Launch

unfoldable pub run : AppConfig → Answers → Outcome
unfolding choose_capture
run config answers =
    let failed : Outcome = record { result = false; cleans_up = true; launch = none } in
    if config.dry_run
    then record { result = true; cleans_up = false; launch = none }
    else if not answers.winsock_starts
    then record failed { cleans_up = false }
    else if not (Session.initialize answers.makes_directory config answers.files)
    then failed
    else elim (choose_capture config answers) [
      | none ↦ failed
      | some captures ↦ record {
        result = true;
        cleans_up = true;
        launch = some (record {
          captures = captures;
          tcp_thread = config.tcp_enabled;
          udp_thread = config.udp_enabled;
        });
      }
    ]
