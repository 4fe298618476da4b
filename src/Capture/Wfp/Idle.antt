-- ===== src/Capture/Wfp/Idle.antt =====
-- The loop of the adapter never has anything to do.
use network_proxy.Prelude.{◌≡◌, ◌⊎◌, Bool, false, not, ◌&&◌}
use network_proxy.Config.Types.{AppConfig}
use network_proxy.Capture.Redirect
use network_proxy.Capture.Redirect.Reachable.{Reachable}
use network_proxy.Capture.Wfp.{WfpCapture}

-- What the loop relies on: a controller that its operations reach, and that asks for no fallback
-- where the loop would look at it.
record IsQuiet (config : AppConfig) (w : WfpCapture) : Type 0 where
  reaches : Reachable config w.redirect_controller
  quiet :
      (w.initialized ≡ false)
      ⊎ (((w.config.wfp_redirect_enabled && not w.fallback_requested) ≡ false)
          ⊎ (w.redirect_controller.fallback_requested ≡ false))

abbrev IsQuietResult : AppConfig → WfpCapture × Bool → Type 0
IsQuietResult config r = IsQuiet config r.0
