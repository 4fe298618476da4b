-- ===== src/Capture/Wfp.antt =====
-- src/capture/wfp_capture.cpp: the adapter around the redirect controller. The answers of the
-- filtering engine are arguments.
pub mod Idle
use network_proxy.Prelude.{
  if◌then◌else◌, Bytes, codes, to_string, ℕ, zero, suc, Bool, true, false, not, ◌&&◌, ◌||◌, Option,
  none, some, [], ◌++◌,
}
use network_proxy.Config.Types.{AppConfig}
use network_proxy.Capture.Redirect.{Controller, new_controller, tick_health}
use network_proxy.Capture.Redirect

-- Of the two handles, whether they are there.
pub record WfpCapture : Type 0 where
  pub config : AppConfig
  pub engine_handle : Bool
  pub subscription_handle : Bool
  pub redirect_controller : Controller
  pub initialized : Bool
  pub fallback_requested : Bool
  pub fallback_reason : Bytes

abbrev pub new_wfp_capture : AppConfig → WfpCapture
new_wfp_capture config = record {
  config = config;
  engine_handle = false;
  subscription_handle = false;
  redirect_controller = new_controller config;
  initialized = false;
  fallback_requested = false;
  fallback_reason = [];
}

-- `~WfpCapture`
unfoldable pub destroy : WfpCapture → WfpCapture
destroy w = record w { engine_handle = false; subscription_handle = false }

-- From `if (config_.wfp_redirect_enabled)` on.
unfoldable pub initialize_redirect : WfpCapture → WfpCapture × Bool
initialize_redirect w =
    let (controller, ok) = Redirect.initialize w.redirect_controller in
    if not w.config.wfp_redirect_enabled
    then (record w { initialized = true }, true)
    else if ok
    then (record w { redirect_controller = controller; initialized = true }, true)
    else if w.config.wfp_redirect_allow_startup_fallback
    then (
      record w {
        redirect_controller = controller;
        fallback_reason = controller.fallback_reason;
        fallback_requested = true;
        initialized = true;
      },
      true,
    )
    else (
      record w { redirect_controller = controller; fallback_reason = controller.fallback_reason },
      false,
    )

-- `opens` and `subscribes` say whether the two calls of the engine succeed.
unfoldable pub initialize : Bool → Bool → WfpCapture → WfpCapture × Bool
unfolding initialize_redirect
initialize opens subscribes w =
    if not w.config.capture_enabled || not w.config.use_wfp
    then (w, false)
    else if not opens
    then (w, false)
    else if not subscribes
    then (record w { engine_handle = false }, false)
    else initialize_redirect (record w { engine_handle = true; subscription_handle = true })

-- A round of the loop: how it goes on, and whether it stores `stop_requested`.
pub data Round : Type 0 where
  sleeps falls_back stops : Round

unfoldable pub round : WfpCapture → WfpCapture × Round
round w =
    if not (w.config.wfp_redirect_enabled && not w.fallback_requested)
    then (w, sleeps)
    else let controller = tick_health w.redirect_controller in
      let w' : WfpCapture = record w { redirect_controller = controller } in
      if not controller.fallback_requested
      then (w', sleeps)
      else if w.config.wfp_redirect_allow_runtime_fallback
      then (
        record w' { fallback_reason = controller.fallback_reason; fallback_requested = true },
        falls_back,
      )
      else (record w' { fallback_reason = controller.fallback_reason }, stops)

-- A number of rounds before the stop from outside; the result says whether the loop itself has
-- stored `stop_requested`.
unfoldable pub run_loop : ℕ → WfpCapture → WfpCapture × Bool
unfolding round
run_loop zero w = (w, false)
run_loop (suc rounds) w =
    let (w', how) = round w in
    let rest = run_loop rounds w' in
    elim how [ sleeps ↦ rest | falls_back ↦ (w', false) | stops ↦ (w', true) ]

unfoldable pub run : ℕ → WfpCapture → WfpCapture × Bool
unfolding run_loop
run rounds w = if not w.initialized then (w, false) else run_loop rounds w

-- What an event carries; the two texts of an address come from `InetNtopA`, which can fail.
pub record NetEvent : Type 0 where
  pub is_classify_drop : Bool
  pub ip_protocol : ℕ
  pub local_address : Option Bytes
  pub local_port : ℕ
  pub remote_address : Option Bytes
  pub remote_port : ℕ

-- `endpoint_to_text_v4` and `endpoint_to_text_v6`
unfoldable pub endpoint_to_text : Option Bytes → ℕ → Bytes
endpoint_to_text address port = elim address [
  | none ↦ []
  | some text ↦ text ++ (codes ":" ++ to_string port)
]

-- The message for the log; `none` where nothing is logged.
unfoldable pub on_net_event : NetEvent → Option Bytes
unfolding endpoint_to_text
on_net_event event =
    if not event.is_classify_drop
    then none
    else some (
        codes "wfp classify_drop protocol="
        ++ (to_string event.ip_protocol
            ++ (codes " local="
                ++ (endpoint_to_text event.local_address event.local_port
                    ++ (codes " remote="
                        ++ endpoint_to_text event.remote_address event.remote_port)))))
