-- ===== src/Proxy/Backend.antt =====
-- Which capture runs where the redirect cannot be set up.
use network_proxy.Prelude.{
  if◌then◌else◌, Bool-cases, Option-cases, ◌≡◌, refl, sym, ap, ◌∙◌, inl, inr, Bool, true, false,
  not, none, some, arith,
}
use network_proxy.Config.Types.{AppConfig}
use network_proxy.Capture.Wfp.{WfpCapture, new_wfp_capture, initialize_redirect}
use network_proxy.Capture.Wfp
use network_proxy.Capture.Redirect.{new_controller}
use network_proxy.Capture.Redirect
use network_proxy.Capture.Redirect.Reachable.{initialize-fails}
use network_proxy.Capture.Divert.{new_win_divert_capture}
use network_proxy.Capture.Divert
use network_proxy.Proxy.{
  none_active, wfp, win_divert, Answers, Captures, choose_wfp, choose_win_divert, choose_capture,
}

past : {A : Type 0} (b : Bool) (x y : A) → b ≡ true → (if not b then x else y) ≡ y
past true x y h = refl
past false x y h = absurd (cc h)

-- The capture is on with both backends and the redirect, and the system refuses nothing.
pub record IsReady (config : AppConfig) (answers : Answers) : Type 0 where
  pub capture : config.capture_enabled ≡ true
  pub wfp : config.use_wfp ≡ true
  pub divert : config.use_windivert ≡ true
  pub redirect : config.wfp_redirect_enabled ≡ true
  pub opens : answers.wfp_opens ≡ true
  pub subscribes : answers.wfp_subscribes ≡ true
  pub loads :
      (Divert.initialize answers.divert_library answers.divert_opens
        (new_win_divert_capture config)).1
      ≡ true

module _ (config : AppConfig) (answers : Answers) (ready : IsReady config answers)
    (fails : (Redirect.initialize (new_controller config)).1 ≡ false) where
  wfp-initialize :
      (Wfp.initialize answers.wfp_opens answers.wfp_subscribes (new_wfp_capture config)).1
      ≡ config.wfp_redirect_allow_startup_fallback
  unfolding Wfp.initialize initialize_redirect
  wfp-initialize =
      ground (arith, ready.capture, ready.wfp, ready.redirect, ready.opens, ready.subscribes, fails)

  started : WfpCapture
  started = (Wfp.initialize answers.wfp_opens answers.wfp_subscribes (new_wfp_capture config)).0

  wfp-applied : started.redirect_controller.bridge.applied ≡ false
  unfolding Wfp.initialize initialize_redirect started
  wfp-applied =
      let (_, _, _, a) = initialize-fails config fails in
      ground
        (arith, ready.capture, ready.wfp, ready.redirect, ready.opens, ready.subscribes, fails, a)

  wfp-requests : started.fallback_requested ≡ config.wfp_redirect_allow_startup_fallback
  unfolding Wfp.initialize initialize_redirect started
  wfp-requests =
      ground (arith, ready.capture, ready.wfp, ready.redirect, ready.opens, ready.subscribes, fails)

  divert-opens :
      (Divert.initialize answers.divert_library answers.divert_opens
        (new_win_divert_capture config)).0.divert_handle
      ≡ true
  unfolding Divert.initialize Divert.bind_functions
  divert-opens = elim (Option-cases answers.divert_library) [
    | inl e ↦ absurd (ground (arith, ready.capture, ready.divert, ready.loads, e))
    | inr (found, e) ↦ ground (arith, ready.capture, ready.divert, ready.loads, e)
  ]

  with_wfp : Bool → Captures
  with_wfp ok = record {
    active_capture_backend = if ok then wfp else none_active;
    wfp_capture = started;
    win_divert_capture = new_win_divert_capture config;
  }

  choose_wfp-started :
      choose_wfp config answers ≡ with_wfp config.wfp_redirect_allow_startup_fallback
  unfolding choose_wfp started with_wfp
  choose_wfp-started = past config.use_wfp _ _ ready.wfp ∙ ap with_wfp wfp-initialize

  choose_capture-started :
      choose_capture config answers
      ≡ choose_win_divert config answers (with_wfp config.wfp_redirect_allow_startup_fallback)
  unfolding choose_capture
  choose_capture-started =
      past config.capture_enabled _ _ ready.capture
      ∙ ap (choose_win_divert config answers) choose_wfp-started

  with_divert : Captures
  unfolding with_wfp
  with_divert = record (with_wfp false) {
    active_capture_backend = win_divert;
    win_divert_capture =
        (Divert.initialize answers.divert_library answers.divert_opens
          (new_win_divert_capture config)).0;
  }

  choose_win_divert-started : choose_win_divert config answers (with_wfp false) ≡ some with_divert
  unfolding choose_win_divert with_wfp with_divert
  choose_win_divert-started =
      past config.use_windivert _ _ ready.divert ∙ past _ none (some with_divert) ready.loads

-- With both captures configured, the redirect on, and a system that refuses nothing, where the
-- redirect cannot be set up: if `wfp_redirect_allow_startup_fallback` is set, WFP is the active
-- capture, with no redirect policy on its bridge and its request for a fallback unanswered, and
-- WinDivert is not opened; if it is not set, WinDivert is opened and active.
pub choose_capture-fallback :
    (config : AppConfig) (answers : Answers)
    → IsReady config answers
    → (Redirect.initialize (new_controller config)).1 ≡ false
    → (c : Captures) × (choose_capture config answers ≡ some c)
      × (c.wfp_capture.redirect_controller.bridge.applied ≡ false)
      × (c.wfp_capture.fallback_requested ≡ config.wfp_redirect_allow_startup_fallback)
      × (c.win_divert_capture.divert_handle ≡ not config.wfp_redirect_allow_startup_fallback)
      × (c.active_capture_backend
          ≡ (if config.wfp_redirect_allow_startup_fallback then wfp else win_divert))
unfolding choose_win_divert with_wfp with_divert started
choose_capture-fallback config answers ready fails =
    elim (Bool-cases config.wfp_redirect_allow_startup_fallback) [
      | inl b ↦ (
        with_wfp config answers ready fails true,
        choose_capture-started config answers ready fails
            ∙ ap (λ ok. choose_win_divert config answers (with_wfp config answers ready fails ok))
                b,
        wfp-applied config answers ready fails,
        wfp-requests config answers ready fails,
        rw b,
        rw b,
      )
      | inr b ↦ (
        with_divert config answers ready fails,
        choose_capture-started config answers ready fails
            ∙ ap (λ ok. choose_win_divert config answers (with_wfp config answers ready fails ok)) b
            ∙ choose_win_divert-started config answers ready fails,
        wfp-applied config answers ready fails,
        wfp-requests config answers ready fails,
        divert-opens config answers ready fails ∙ sym (ap not b),
        rw b,
      )
    ]
