-- ===== src/Patch/Engine.antt =====
-- src/patch/patch_engine.cpp: the three patch operations. The log lines are left out: they are
-- written whatever the result, or report it.
use network_proxy.Prelude.{
  ◌==◌, if◌then◌else◌, is_empty, Bytes, codes, eqb, ℕ, ◌+◌, Bool, true, false, not, ◌&&◌, Option,
  none, some, List, ◌++◌,
}
use network_proxy.Config.Types.{AppConfig}
use network_proxy.Http.{HeaderMap, HttpRequest, HttpResponse, set_header}
use network_proxy.Rules.Types.{RuleMatchContext, RuleDefinition, empty_context}
use network_proxy.Rules.Apply.{
  apply_transport, apply_http_request, apply_http_response, needs_header,
}
use network_proxy.Patch.Bytes.{replace_all, decode_hex_string}

-- The members of the class, the logger apart.
pub record PatchEngine : Type 0 where
  pub config : AppConfig
  pub rules : Option (List RuleDefinition)

unfoldable pub set_rule_engine : List RuleDefinition → PatchEngine → PatchEngine
set_rule_engine rules e = record e { rules = some rules }

abbrev pub proxy_header : Bytes
proxy_header = codes "X-Network-Proxy"

abbrev pub proxy_value : Bytes
proxy_value = codes "network_proxy"

abbrev pub request_suffix : Bytes
request_suffix = codes "\n[patched-by-network-proxy-request]"

abbrev pub response_suffix : Bytes
response_suffix = codes "\n[patched-by-network-proxy-response]"

-- `if (config_.add_proxy_header) { … }`
unfoldable pub add_header : AppConfig → HeaderMap × Bool → HeaderMap × Bool
add_header config (headers, changed) =
    if config.add_proxy_header && needs_header headers proxy_header proxy_value
    then (set_header headers proxy_header proxy_value, true)
    else (headers, changed)

-- `if (config_.append_debug_suffix && !body.empty()) { … }`
unfoldable pub add_suffix : AppConfig → Bytes → Bytes × Bool → Bytes × Bool
add_suffix config suffix (body, changed) =
    if config.append_debug_suffix && not (is_empty body)
    then (body ++ suffix, true)
    else (body, changed)

unfoldable pub request_rules :
    PatchEngine → HttpRequest → Option RuleMatchContext → HttpRequest × Bool
request_rules e request context = elim e.rules [
  | none ↦ (request, false)
  | some rules ↦ elim context [
    | none ↦ (request, false)
    | some c ↦ apply_http_request rules request c
  ]
]

unfoldable pub response_rules :
    PatchEngine → HttpResponse → Option RuleMatchContext → HttpResponse × Bool
response_rules e response context = elim e.rules [
  | none ↦ (response, false)
  | some rules ↦ elim context [
    | none ↦ (response, false)
    | some c ↦ apply_http_response rules response c
  ]
]

unfoldable pub apply_request_patch :
    PatchEngine → HttpRequest → Option RuleMatchContext → HttpRequest × Bool
unfolding request_rules add_header add_suffix
apply_request_patch e request context =
    let (r, changed) = request_rules e request context in
    let (headers, changed') = add_header e.config (r.headers, changed) in
    let (body, changed'') = add_suffix e.config request_suffix (r.body, changed') in
    (record r { headers = headers; body = body }, changed'')

unfoldable pub apply_response_patch :
    PatchEngine → HttpResponse → Option RuleMatchContext → HttpResponse × Bool
unfolding response_rules add_header add_suffix
apply_response_patch e response context =
    let (r, changed) = response_rules e response context in
    let (headers, changed') = add_header e.config (r.headers, changed) in
    let (body, changed'') = add_suffix e.config response_suffix (r.body, changed') in
    (record r { headers = headers; body = body }, changed'')

-- The new payload and the running count. Where the loop on fuel of `replace_all` gives nothing, both
-- are left.
unfoldable pub count_replace : Bytes → Bytes → Bytes × ℕ → Bytes × ℕ
count_replace find_text replace_text (payload, total) =
    elim (replace_all payload find_text replace_text) [
      | none ↦ (payload, total)
      | some (payload', count) ↦ (payload', total + count)
    ]

-- `if (config_.enable_text_patch) { … }`
unfoldable pub text_patch : AppConfig → Bool → Bytes × ℕ → Bytes × ℕ
unfolding count_replace
text_patch config is_outbound p =
    let find_text = if is_outbound then config.outbound_find else config.inbound_find in
    let replace_text = if is_outbound then config.outbound_replace else config.inbound_replace in
    if config.enable_text_patch && not (is_empty find_text)
    then count_replace find_text replace_text p
    else p

unfoldable pub hex_replace : Option Bytes → Option Bytes → Bytes × ℕ → Bytes × ℕ
hex_replace none r p = p
hex_replace (some f) none p = p
hex_replace (some f) (some r) p = if is_empty f then p else count_replace f r p

-- `if (config_.enable_hex_patch) { … }`
unfoldable pub hex_patch : AppConfig → Bool → Bytes × ℕ → Bytes × ℕ
unfolding hex_replace count_replace
hex_patch config is_outbound p =
    let find_hex = if is_outbound then config.outbound_find_hex else config.inbound_find_hex in
    let replace_hex =
      if is_outbound then config.outbound_replace_hex else config.inbound_replace_hex in
    if config.enable_hex_patch
    then hex_replace (decode_hex_string find_hex) (decode_hex_string replace_hex) p
    else p

-- `local_context`
abbrev pub local_context : Bytes → Bytes → Option RuleMatchContext → RuleMatchContext
local_context protocol direction none = record empty_context {
  protocol = protocol;
  direction = direction;
}
local_context protocol direction (some c) = record c { protocol = protocol; direction = direction }

unfoldable pub transport_rules : PatchEngine → Bytes → RuleMatchContext → Bytes × Bool
transport_rules e payload context = elim e.rules [
  | none ↦ (payload, false)
  | some rules ↦ apply_transport rules payload context
]

unfoldable pub apply_transport_patch :
    PatchEngine → Bytes → Bytes → Bytes → Option RuleMatchContext → Bytes × Bool
unfolding transport_rules text_patch hex_patch
apply_transport_patch e payload protocol direction context =
    let is_outbound = eqb direction (codes "outbound") in
    let (payload₁, changed) =
      transport_rules e payload (local_context protocol direction context) in
    let (payload₂, total) =
      hex_patch e.config is_outbound (text_patch e.config is_outbound (payload₁, 0)) in
    (payload₂, if total == 0 then changed else true)
