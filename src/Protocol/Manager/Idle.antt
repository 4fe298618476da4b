-- ===== src/Protocol/Manager/Idle.antt =====
-- An engine that has nothing to do changes no payload, through any adapter.
use network_proxy.Prelude.{
  if◌then◌else◌, Bool-cases, Option-cases, option_map, Bytes, codes, ◌≡◌, refl, ap, inl, inr, Bool,
  true, false, Option, none, List, [], ◌∷◌,
}
use network_proxy.Http.{HttpRequest, HttpResponse}
use network_proxy.Patch.Engine.{
  PatchEngine, request_rules, response_rules, add_header, add_suffix, apply_request_patch,
  apply_response_patch, transport_rules, text_patch, hex_patch, apply_transport_patch,
}
use network_proxy.Protocol.Adapter.{
  is_http, assemble, patch_request, patch_response, patch_parts, apply_patch, can_handle,
  empty_request,
}
use network_proxy.Protocol.Manager.{
  ProtocolAdapter, http_protocol_adapter, ProtocolManager, adapter_patch, try_adapters,
  patch_payload,
}
use network_proxy.Protocol.Detector.{detect_protocol_kind}
use network_proxy.Protocol.Message.{
  ProtocolContext, parse_request_start_line, split_http_message, split_lines,
  starts_with_ignore_case,
}
use network_proxy.Rules.Types.{RuleMatchContext}
use network_proxy.Tls.Plaintext.{patch_https_plaintext_http}

-- No rules are set, and each switch of the patch section is off.
pub record IsIdle (e : PatchEngine) : Type 0 where
  pub rules : e.rules ≡ none
  pub header : e.config.add_proxy_header ≡ false
  pub suffix : e.config.append_debug_suffix ≡ false
  pub text : e.config.enable_text_patch ≡ false
  pub hex : e.config.enable_hex_patch ≡ false

module _ (e : PatchEngine) (idle : IsIdle e) where
  request-unpatched :
      (q : HttpRequest) (c : Option RuleMatchContext) → (apply_request_patch e q c).1 ≡ false
  unfolding apply_request_patch request_rules add_header add_suffix
  request-unpatched q c =
      rw (apply_request_patch, request_rules, idle.rules, idle.header, idle.suffix)

  response-unpatched :
      (q : HttpResponse) (c : Option RuleMatchContext) → (apply_response_patch e q c).1 ≡ false
  unfolding apply_response_patch response_rules add_header add_suffix
  response-unpatched q c =
      rw (apply_response_patch, response_rules, idle.rules, idle.header, idle.suffix)

  patch_request-none :
      (context : ProtocolContext) (line : Bytes) (lines : List Bytes) (body : Bytes)
      → patch_request e context line lines body ≡ none
  unfolding patch_request
  patch_request-none context line lines body =
      elim (Option-cases (parse_request_start_line line empty_request)) [
        | inl n ↦ rw (patch_request, n)
        | inr (q, f) ↦ rw (patch_request, f, request-unpatched _ _)
      ]

  patch_response-none :
      (context : ProtocolContext) (line : Bytes) (lines : List Bytes) (body : Bytes)
      → patch_response e context line lines body ≡ none
  unfolding patch_response
  patch_response-none context line lines body = rw (patch_response, response-unpatched _ _)

  pub transport-idle :
      (payload protocol direction : Bytes) (c : Option RuleMatchContext)
      → apply_transport_patch e payload protocol direction c ≡ (payload, false)
  unfolding apply_transport_patch transport_rules text_patch hex_patch
  transport-idle payload protocol direction c = rw (
    apply_transport_patch, transport_rules, idle.rules, text_patch, idle.text, hex_patch, idle.hex,
  )

  patch_parts-none :
      (context : ProtocolContext) (lines : List Bytes) (body : Bytes)
      → patch_parts e context lines body ≡ none
  unfolding patch_parts
  patch_parts-none context [] body = refl
  patch_parts-none context (line ∷ lines) body =
      elim (Bool-cases (starts_with_ignore_case line (codes "HTTP/"))) [
        | inl b ↦ rw (patch_parts, b) (patch_response-none context line (line ∷ lines) body)
        | inr b ↦ rw (patch_parts, b) (patch_request-none context line (line ∷ lines) body)
      ]

  apply_patch-none :
      (context : ProtocolContext) (payload : Bytes) → apply_patch e context payload ≡ none
  unfolding apply_patch
  apply_patch-none context payload = elim (Option-cases (split_http_message payload)) [
    | inl n ↦ rw (apply_patch, n)
    | inr ((head, body), f) ↦
        rw (apply_patch, f)
          (ap (option_map assemble) (patch_parts-none context (split_lines head) body))
  ]

  adapter_patch-none :
      (a : ProtocolAdapter) (context : ProtocolContext) (payload : Bytes)
      → adapter_patch a e context payload ≡ none
  unfolding adapter_patch
  adapter_patch-none http_protocol_adapter context payload =
      elim (Bool-cases (can_handle context payload)) [
        | inl b ↦ rw (adapter_patch, b) (apply_patch-none context payload)
        | inr b ↦ rw (adapter_patch, b)
      ]

  try_adapters-idle :
      (adapters : List ProtocolAdapter) (context : ProtocolContext) (payload : Bytes)
      → try_adapters e adapters context payload ≡ (payload, false)
  unfolding try_adapters
  try_adapters-idle [] context payload = refl
  try_adapters-idle (a ∷ adapters) context payload =
      rw (try_adapters, adapter_patch-none a context payload)
        (try_adapters-idle adapters context payload)

pub patch_payload-idle :
    (m : ProtocolManager) (context : ProtocolContext) (payload : Bytes)
    → IsIdle m.patch_engine
    → patch_payload m payload context ≡ (payload, false)
unfolding patch_payload
patch_payload-idle m context payload idle = elim (Bool-cases m.config.protocol_adapter_enabled) [
  | inl b ↦ rw (patch_payload, b) (try_adapters-idle m.patch_engine idle m.adapters context payload)
  | inr b ↦ rw (patch_payload, b)
]

pub plaintext-idle :
    (m : ProtocolManager) (e : PatchEngine) (payload direction : Bytes)
    → IsIdle m.patch_engine
    → IsIdle e
    → (patch_https_plaintext_http m e payload direction).0 ≡ payload
unfolding patch_https_plaintext_http
plaintext-idle m e payload direction im ie =
    rw (patch_https_plaintext_http, patch_payload-idle m _ payload im)
      (step (is_http (detect_protocol_kind payload)))
  where
    step :
        (b : Bool)
        → (if b
            then apply_transport_patch e payload (codes "https-http") direction none
            else (payload, false)).0
          ≡ payload
    step true = rw (transport-idle e ie payload (codes "https-http") direction none)
    step false = refl
