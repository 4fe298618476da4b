-- ===== src/Config/Keys/Written.antt =====
-- The numbers of a configuration file are those that are written in it.
use network_proxy.Prelude.{if◌then◌else◌, ℕ, Bool}
use network_proxy.Config.Types.{AppConfig}
use network_proxy.Config.Keys.{Outcome, invalid, stored}

-- A number is stored, or refused where the test fails.
abbrev pub taken : Bool → ℕ → (ℕ → AppConfig) → Outcome
taken fits n store = if fits then stored (store n) else invalid
