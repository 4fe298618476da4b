-- ===== src/Capture/Redirect.antt =====
-- src/capture/wfp_redirect_controller.cpp: the local bridge and the controller over it. A method of
-- the bridge returns its new state, and the error message where its result is `false`.
pub mod Reachable
use network_proxy.Prelude.{
  if◌then◌else◌, is_empty, Bytes, codes, ℕ, Bool, true, false, not, ◌&&◌, ◌||◌, Option, none, some,
  [], ◌++◌,
}
use network_proxy.Config.Types.{AppConfig}

pub record WfpRedirectPolicy : Type 0 where
  pub filter_expression : Bytes
  pub callout_channel : Bytes
  pub tcp_redirect_host : Bytes
  pub tcp_redirect_port : ℕ
  pub udp_redirect_host : Bytes
  pub udp_redirect_port : ℕ
  pub enable_tcp : Bool
  pub enable_udp : Bool

abbrev pub empty_policy : WfpRedirectPolicy
empty_policy = record {
  filter_expression = [];
  callout_channel = [];
  tcp_redirect_host = [];
  tcp_redirect_port = 0;
  udp_redirect_host = [];
  udp_redirect_port = 0;
  enable_tcp = true;
  enable_udp = true;
}

pub record Bridge : Type 0 where
  pub connected : Bool
  pub applied : Bool
  pub channel : Bytes
  pub cached_policy : WfpRedirectPolicy

unfoldable pub connect : Bytes → Bridge → Bridge × Option Bytes
connect channel b =
    if is_empty channel
    then (b, some (codes "callout channel is empty"))
    else (record b { channel = channel; connected = true }, none)

unfoldable pub apply_policy : WfpRedirectPolicy → Bridge → Bridge × Option Bytes
apply_policy policy b =
    if not b.connected
    then (b, some (codes "callout bridge is not connected"))
    else if is_empty policy.filter_expression
    then (b, some (codes "redirect policy filter is empty"))
    else if not policy.enable_tcp && not policy.enable_udp
    then (b, some (codes "redirect policy disables both tcp and udp"))
    else (record b { cached_policy = policy; applied = true }, none)

unfoldable pub clear_policy : Bridge → Bridge × Option Bytes
clear_policy b =
    if not b.connected
    then (b, some (codes "callout bridge is not connected"))
    else (record b { applied = false; cached_policy = empty_policy }, none)

unfoldable pub check_health : Bridge → Option Bytes
check_health b =
    if not b.connected
    then some (codes "callout bridge disconnected")
    else if not b.applied
    then some (codes "callout policy is not active")
    else none

pub record Controller : Type 0 where
  pub config : AppConfig
  pub bridge : Bridge
  pub initialized : Bool
  pub policy_applied : Bool
  pub fallback_requested : Bool
  pub fallback_reason : Bytes

abbrev pub new_controller : AppConfig → Controller
new_controller config = record {
  config = config;
  bridge = record {
    connected = false;
    applied = false;
    channel = [];
    cached_policy = empty_policy;
  };
  initialized = false;
  policy_applied = false;
  fallback_requested = false;
  fallback_reason = [];
}

unfoldable pub request_fallback : Bytes → Controller → Controller
request_fallback reason c = record c { fallback_requested = true; fallback_reason = reason }

abbrev pub default_policy : AppConfig → WfpRedirectPolicy
default_policy config = record {
  filter_expression = config.wfp_redirect_filter;
  callout_channel = config.wfp_callout_channel;
  tcp_redirect_host = config.tcp_listen_host;
  tcp_redirect_port = config.tcp_listen_port;
  udp_redirect_host = config.udp_listen_host;
  udp_redirect_port = config.udp_listen_port;
  enable_tcp = config.tcp_enabled;
  enable_udp = config.udp_enabled;
}

unfoldable pub apply_default_policy : Controller → Controller × Bool
unfolding apply_policy request_fallback
apply_default_policy c =
    let (bridge, error) = apply_policy (default_policy c.config) c.bridge in
    elim error [
      | some message ↦ (
        request_fallback (codes "apply policy failed: " ++ message) (record c { bridge = bridge }),
        false,
      )
      | none ↦ (record c { bridge = bridge; policy_applied = true }, true)
    ]

unfoldable pub initialize : Controller → Controller × Bool
unfolding connect apply_default_policy
initialize c =
    let (bridge, error) = connect c.config.wfp_callout_channel c.bridge in
    if not c.config.wfp_redirect_enabled then (c, true) else elim error [
      | some message ↦ (
        request_fallback (codes "callout connect failed: " ++ message)
            (record c { bridge = bridge }),
        false,
      )
      | none ↦
          let (c', done) = apply_default_policy (record c { bridge = bridge }) in
          if not done then (c', false) else (record c' { initialized = true }, true)
    ]

unfoldable pub tick_health : Controller → Controller
unfolding check_health request_fallback
tick_health c =
    if not c.initialized || (c.fallback_requested || not c.config.wfp_redirect_enabled)
    then c
    else elim (check_health c.bridge) [
      | none ↦ c
      | some message ↦ request_fallback (codes "redirect health check failed: " ++ message) c
    ]

unfoldable pub shutdown : Controller → Controller
unfolding clear_policy
shutdown c = if not c.initialized then c else record c {
  bridge = (clear_policy c.bridge).0;
  initialized = false;
  policy_applied = false;
}
