-- ===== src/Capture/Redirect/Reachable.antt =====
-- The controller over sequences of its public operations.
use network_proxy.Capture.Redirect.{
  Controller, new_controller, default_policy, initialize, tick_health, shutdown,
}
use network_proxy.Config.Types.{AppConfig}
use network_proxy.Prelude.{is_empty, ◌≡◌, ◌↔◌, ◌⊎◌, true, false, ◌||◌, [], arith}

-- The states that calls of the three operations reach from a new controller.
pub data Reachable (config : AppConfig) : Controller → Type 0 where
  created : Reachable config (new_controller config)
  initialized_by : {c : Controller} → Reachable config c → Reachable config (initialize c).0
  ticked : {c : Controller} → Reachable config c → Reachable config (tick_health c)
  shut_down : {c : Controller} → Reachable config c → Reachable config (shutdown c)

-- What holds of the controller and its bridge in each such state.
pub record IsSound (config : AppConfig) (c : Controller) : Type 0 where
  pub same_config : c.config ≡ config
  pub connects : (c.initialized ≡ false) ⊎ (c.bridge.connected ≡ true)
  pub applies : (c.initialized ≡ false) ⊎ (c.bridge.applied ≡ true)
  pub mirrors : c.policy_applied ≡ c.bridge.applied
  pub caches : (c.bridge.applied ≡ false) ⊎ (c.bridge.cached_policy ≡ default_policy config)
  pub filters : (c.bridge.applied ≡ false) ⊎ (is_empty config.wfp_redirect_filter ≡ false)
  pub serves : (c.bridge.applied ≡ false) ⊎ ((config.tcp_enabled || config.udp_enabled) ≡ true)
  pub reasons : (c.fallback_requested ≡ true) ⊎ (c.fallback_reason ≡ [])

new-IsSound : (config : AppConfig) → IsSound config (new_controller config)
new-IsSound config = ground arith

initialize-IsSound :
    (config : AppConfig) (c : Controller) → IsSound config c → IsSound config (initialize c).0
unfolding initialize
initialize-IsSound config c s = ground arith

tick_health-IsSound :
    (config : AppConfig) (c : Controller) → IsSound config c → IsSound config (tick_health c)
unfolding tick_health
tick_health-IsSound config c s = ground arith

shutdown-IsSound :
    (config : AppConfig) (c : Controller) → IsSound config c → IsSound config (shutdown c)
unfolding shutdown
shutdown-IsSound config c s = ground arith

-- In every state that the operations reach, the bridge and the controller agree: an initialised
-- controller has a connected bridge with the configured policy on it, the policy has a filter and
-- serves tcp or udp, and a reason is kept only with a request for fallback.
pub Reachable-IsSound :
    {config : AppConfig} {c : Controller} → Reachable config c → IsSound config c
Reachable-IsSound {config} created = new-IsSound config
Reachable-IsSound {config} (initialized_by {c} r) =
    initialize-IsSound config c (Reachable-IsSound r)
Reachable-IsSound {config} (ticked {c} r) = tick_health-IsSound config c (Reachable-IsSound r)
Reachable-IsSound {config} (shut_down {c} r) = shutdown-IsSound config c (Reachable-IsSound r)

-- Over the local bridge a health check never fails: in every state that the operations reach,
-- `tick_health` changes nothing, so a fallback is asked for by `initialize` alone.
pub tick_health-Reachable :
    {config : AppConfig} {c : Controller} → Reachable config c → tick_health c ≡ c
unfolding tick_health
tick_health-Reachable r = let s = Reachable-IsSound r in ground (arith, s.connects, s.applies)

-- What a policy needs to be accepted.
abbrev pub Accepts : AppConfig → Type 0
Accepts config =
    (is_empty config.wfp_callout_channel ≡ false)
    × (is_empty config.wfp_redirect_filter ≡ false)
    × ((config.tcp_enabled || config.udp_enabled) ≡ true)

-- With the redirect enabled, `initialize` succeeds on a new controller exactly where the channel and
-- the filter are not empty and tcp or udp is enabled.
pub initialize_iff :
    (config : AppConfig)
    → config.wfp_redirect_enabled ≡ true
    → ((initialize (new_controller config)).1 ≡ true) ↔ Accepts config
unfolding initialize
initialize_iff config h = ground arith

-- Where `initialize` fails on a new controller, it has asked for fallback with a reason, the
-- controller is not initialised, and no policy is on the bridge.
pub initialize-fails :
    (config : AppConfig)
    → (initialize (new_controller config)).1 ≡ false
    → ((initialize (new_controller config)).0.fallback_requested ≡ true)
      × (is_empty (initialize (new_controller config)).0.fallback_reason ≡ false)
      × ((initialize (new_controller config)).0.initialized ≡ false)
      × ((initialize (new_controller config)).0.bridge.applied ≡ false)
unfolding initialize
initialize-fails config h = ground arith
