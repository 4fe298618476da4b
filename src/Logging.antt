-- ===== src/Logging.antt =====
-- src/logging/logger.cpp: levels and the filter. What is written goes to the console with a time
-- stamp; the model keeps the messages that pass the filter.
use network_proxy.Prelude.{ltb, if◌then◌else◌, Bytes, codes, eqb, ℕ, List, [], ◌∷◌, ◌++◌}
use network_proxy.Common.{to_lower_copy}

pub data LogLevel : Type 0 where
  debug info warn error : LogLevel

abbrev pub severity : LogLevel → ℕ
severity debug = 0
severity info = 1
severity warn = 2
severity error = 3

unfoldable pub parse_log_level : Bytes → LogLevel
parse_log_level value =
    let normalized = to_lower_copy value in
    if eqb normalized (codes "debug")
    then debug
    else if eqb normalized (codes "warn")
    then warn
    else if eqb normalized (codes "error")
    then error
    else info

unfoldable pub to_string : LogLevel → Bytes
to_string debug = codes "debug"
to_string info = codes "info"
to_string warn = codes "warn"
to_string error = codes "error"

pub record Logger : Type 0 where
  pub level : LogLevel
  pub output : List (LogLevel × Bytes)

unfoldable pub set_level : LogLevel → Logger → Logger
set_level level l = record l { level = level }

unfoldable pub log : LogLevel → Bytes → Logger → Logger
log level message l =
    if ltb (severity level) (severity l.level)
    then l
    else record l { output = l.output ++ (level, message) ∷ [] }
