-- ===== src/Rules/Apply.antt =====
-- src/rules/rule_engine.cpp: the three appliers. Each returns the new value and `changed`.
pub mod Unchanged
pub mod Order
use network_proxy.Prelude.{
  ltb, if◌then◌else◌, length, is_empty, Bytes, eqb, ℕ, Bool, true, false, not, ◌||◌, none, some,
  List, [], ◌∷◌,
}
use network_proxy.Http.{HeaderMap, HttpRequest, HttpResponse, find_header, set_header}
use network_proxy.Rules.Types.{RuleMatchContext, RuleAction, RuleDefinition}
use network_proxy.Rules.Replace.{replace_all}
use network_proxy.Rules.Hex.{decode_hex_string}
use network_proxy.Rules.Match.{matches}

-- `changed |= replace_all(payload, find, replace) > 0`. Where the loop on fuel of `replace_all` gives
-- nothing, the payload is left.
unfoldable pub replace_step : Bytes → Bytes → Bytes × Bool → Bytes × Bool
replace_step find_text replace_text (payload, changed) =
    elim (replace_all payload find_text replace_text) [
      | none ↦ (payload, changed)
      | some (payload', count) ↦ (payload', changed || ltb 0 count)
    ]

-- `if (!find.empty()) { … }`
abbrev pub replace_if : Bytes → Bytes → Bytes × Bool → Bytes × Bool
replace_if find_text replace_text p =
    if is_empty find_text then p else replace_step find_text replace_text p

unfoldable pub hex_step : Bytes → Bytes → Bytes × Bool → Bytes × Bool
hex_step hex_find hex_replace p = elim (decode_hex_string hex_find) [
  | none ↦ p
  | some find_bytes ↦ elim (decode_hex_string hex_replace) [
    | none ↦ p
    | some replace_bytes ↦ replace_if find_bytes replace_bytes p
  ]
]

abbrev pub transport_action : RuleAction → Bytes × Bool → Bytes × Bool
transport_action action p =
    let p' = replace_if action.text_find action.text_replace p in
    if is_empty action.hex_find then p' else hex_step action.hex_find action.hex_replace p'

transport_loop : RuleMatchContext → List RuleDefinition → Bytes × Bool → Bytes × Bool
transport_loop context [] p = p
transport_loop context (rule ∷ rules) p =
    transport_loop context rules
      (if matches rule.when context then transport_action rule.action p else p)

unfoldable pub apply_transport : List RuleDefinition → Bytes → RuleMatchContext → Bytes × Bool
unfolding transport_loop
apply_transport rules payload context = transport_loop context rules (payload, false)

-- `existing == end || existing->second != value`
abbrev pub needs_header : HeaderMap → Bytes → Bytes → Bool
needs_header headers name value = elim (find_header headers name) [
  | none ↦ true
  | some existing ↦ not (eqb existing value)
]

unfoldable pub set_headers : HeaderMap → HeaderMap × Bool → HeaderMap × Bool
set_headers [] h = h
set_headers ((name, value) ∷ more) (headers, changed) = set_headers more (
    if needs_header headers name value
    then (set_header headers name value, true)
    else (headers, changed))

-- What the loops of `apply_http_request` and of `apply_http_response` do to headers and body.
pub record Message : Type 0 where
  pub headers : HeaderMap
  pub body : Bytes
  pub changed : Bool

unfoldable pub http_action : RuleAction → Message → Message
unfolding set_headers
http_action action m =
    let (headers, changed) = set_headers action.header_set (m.headers, m.changed) in
    let (body, changed') =
      replace_if action.text_find action.text_replace
        (replace_if action.body_find action.body_replace (m.body, changed)) in
    record { headers = headers; body = body; changed = changed' }

unfoldable pub http_loop : RuleMatchContext → List RuleDefinition → Message → Message
unfolding http_action
http_loop context [] m = m
http_loop context (rule ∷ rules) m =
    http_loop context rules (if matches rule.when context then http_action rule.action m else m)

unfoldable pub apply_http_request :
    List RuleDefinition → HttpRequest → RuleMatchContext → HttpRequest × Bool
unfolding http_loop
apply_http_request rules request context =
    let m =
      http_loop context rules
        (record { headers = request.headers; body = request.body; changed = false }) in
    (record request { headers = m.headers; body = m.body }, m.changed)

unfoldable pub apply_http_response :
    List RuleDefinition → HttpResponse → RuleMatchContext → HttpResponse × Bool
unfolding http_loop
apply_http_response rules response context =
    let m =
      http_loop context rules
        (record { headers = response.headers; body = response.body; changed = false }) in
    (record response { headers = m.headers; body = m.body }, m.changed)

pub rule_count : List RuleDefinition → ℕ
rule_count rules = length rules
