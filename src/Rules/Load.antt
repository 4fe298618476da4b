-- ===== src/Rules/Load.antt =====
-- src/rules/rule_engine.cpp: `load_from_file`, one function for each part of its loop body.
pub mod Fields
pub mod WellFormed
use network_proxy.Prelude.{
  if◌then◌else◌, length, is_empty, drop, Bytes, codes, eqb, starts_with, ends_with_char, pop_back,
  getlines, ℕ, ◌+◌, Bool, true, false, not, Option, none, some, List, [], ◌∷◌, ◌++◌,
}
use network_proxy.Http.{set_header}
use network_proxy.Rules.Types.{RuleCondition, RuleAction, RuleDefinition, empty_rule}
use network_proxy.Rules.Text.{to_lower, trim, unquote, parse_u16, strip_comment, split_key_value}

-- The error messages, with what they print behind their text.
pub data LoadError : Type 0 where
  cannot_open unterminated : LoadError
  expected_rule expected_brace empty_name expected_key_value : ℕ → LoadError
  invalid_remote_port empty_header_name : ℕ → LoadError
  unknown_key : ℕ → Bytes → LoadError

-- `rules_` and the loop's variables.
pub record Loader : Type 0 where
  pub rules : List RuleDefinition
  pub current : RuleDefinition
  pub in_rule : Bool

-- What one round of the loop does: it goes on, or returns false.
pub data Round : Type 0 where
  next : Loader → Round
  refuse : LoadError → Round

-- The block `if (!in_rule)`.
unfoldable pub open_rule : Loader → ℕ → Bytes → Round
open_rule s n trimmed =
    if not (starts_with trimmed (codes "rule "))
    then refuse (expected_rule n)
    else let rest = trim (drop 5 trimmed) in
      if not (ends_with_char rest b'{')
      then refuse (expected_brace n)
      else let name = unquote (trim (pop_back rest)) in
        if is_empty name
        then refuse (empty_name n)
        else next (record s { current = record empty_rule { name = name }; in_rule = true })

-- The assignments to `current_rule.when`; `none` is an unknown key.
unfoldable pub set_when : Bytes → Bytes → RuleCondition → Option RuleCondition
set_when key value w =
    if eqb key (codes "when.protocol")
    then some (record w { protocol = to_lower value })
    else if eqb key (codes "when.direction")
    then some (record w { direction = to_lower value })
    else if eqb key (codes "when.host_contains")
    then some (record w { host_contains = to_lower value })
    else if eqb key (codes "when.method")
    then some (record w { method = to_lower value })
    else if eqb key (codes "when.path_contains")
    then some (record w { path_contains = to_lower value })
    else if eqb key (codes "when.process")
    then some (record w { process_name = to_lower value })
    else none

-- The assignments to `current_rule.action`, header names apart.
unfoldable pub set_action : Bytes → Bytes → RuleAction → Option RuleAction
set_action key value a =
    if eqb key (codes "action.text_find")
    then some (record a { text_find = value })
    else if eqb key (codes "action.text_replace")
    then some (record a { text_replace = value })
    else if eqb key (codes "action.hex_find")
    then some (record a { hex_find = value })
    else if eqb key (codes "action.hex_replace")
    then some (record a { hex_replace = value })
    else if eqb key (codes "action.body_find")
    then some (record a { body_find = value })
    else if eqb key (codes "action.body_replace")
    then some (record a { body_replace = value })
    else none

abbrev header_prefix : Bytes
header_prefix = codes "action.header_set."

-- The last key, and the error behind it.
unfoldable pub set_header_key : Loader → ℕ → Bytes → Bytes → Round
set_header_key s n key value =
    let name = drop (length header_prefix) key in
    let a = s.current.action in
    if not (starts_with key header_prefix)
    then refuse (unknown_key n key)
    else if is_empty name
    then refuse (empty_header_name n)
    else next (record s {
      current = record s.current {
        action = record a { header_set = set_header a.header_set name value };
      };
    })

unfoldable pub set_remote_port : Loader → ℕ → Bytes → Round
set_remote_port s n value = elim (parse_u16 value) [
  | none ↦ refuse (invalid_remote_port n)
  | some port ↦ next (record s {
    current = record s.current { when = record s.current.when { remote_port = port } };
  })
]

unfoldable pub set_key : Loader → ℕ → Bytes → Bytes → Round
set_key s n key value = elim (set_when key value s.current.when) [
  | some w ↦ next (record s { current = record s.current { when = w } })
  | none ↦
      if eqb key (codes "when.remote_port")
      then set_remote_port s n value
      else elim (set_action key value s.current.action) [
        | some a ↦ next (record s { current = record s.current { action = a } })
        | none ↦ set_header_key s n key value
      ]
]

unfoldable pub process_line : Loader → ℕ → Bytes → Round
unfolding open_rule set_key set_remote_port set_header_key
process_line s n line =
    let trimmed = trim (strip_comment line) in
    if is_empty trimmed
    then next s
    else if not s.in_rule
    then open_rule s n trimmed
    else if eqb trimmed (codes "}")
    then next (record { rules = s.rules ++ s.current ∷ []; current = empty_rule; in_rule = false })
    else elim (split_key_value trimmed) [
      | none ↦ refuse (expected_key_value n)
      | some (key, value) ↦ set_key s n (trim key) (unquote (trim value))
    ]

-- `rules_` after the call, and the error message if the result is `false`.
pub record Loaded : Type 0 where
  pub rules : List RuleDefinition
  pub error : Option LoadError

unfoldable pub load_loop : Loader → ℕ → List Bytes → Loaded
load_loop s n [] = record { rules = s.rules; error = if s.in_rule then some unterminated else none }
load_loop s n (line ∷ lines) = elim (process_line s (n + 1) line) [
  | next s' ↦ load_loop s' (n + 1) lines
  | refuse e ↦ record { rules = s.rules; error = some e }
]

abbrev pub initial : Loader
initial = record { rules = []; current = empty_rule; in_rule = false }

-- The argument is the text of the file, or `none` where it cannot be opened.
unfoldable pub load_from_file : Option Bytes → Loaded
unfolding load_loop
load_from_file none = record { rules = []; error = some cannot_open }
load_from_file (some text) = load_loop initial 0 (getlines text)
