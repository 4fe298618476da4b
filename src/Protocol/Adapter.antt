-- ===== src/Protocol/Adapter.antt =====
-- src/protocol/http_protocol_adapter.cpp: the methods of `HttpProtocolAdapter`.
use network_proxy.Prelude.{
  if◌then◌else◌, option_map, is_some, length, Bytes, codes, find, Bool, true, false, not, Option,
  none, some, List, [], ◌∷◌, ◌++◌,
}
use network_proxy.Http.{HttpRequest, HttpResponse}
use network_proxy.Protocol.Detector.{ProtocolKind, unknown, http, https}
use network_proxy.Protocol.Message.{
  ProtocolContext, crlf, blank_line, starts_with_ignore_case, split_http_message, split_lines,
  parse_headers, parse_request_start_line, parse_response_start_line, build_rule_context,
  rebuild_headers_with_content_length, rebuild_head_from_model,
}
use network_proxy.Patch.Engine.{PatchEngine, apply_request_patch, apply_response_patch}

abbrev pub is_http : ProtocolKind → Bool
is_http http = true
is_http unknown = false
is_http https = false

unfoldable pub can_handle : ProtocolContext → Bytes → Bool
can_handle context payload =
    if not (is_http context.protocol_kind) then false else is_some (find payload crlf)

-- `HttpRequest request;` and `HttpResponse response;`
abbrev pub empty_request : HttpRequest
empty_request = record { method = []; target = []; headers = []; body = [] }

abbrev pub empty_response : HttpResponse
empty_response = record { status_code = 200; headers = []; body = [] }

-- The branch for a response: the new head and body where `patched` holds.
unfoldable pub patch_response :
    PatchEngine → ProtocolContext → Bytes → List Bytes → Bytes → Option (Bytes × Bytes)
patch_response e context start_line lines body =
    let parsed = (parse_response_start_line start_line empty_response).0 in
    let response = record parsed { headers = parse_headers lines 1; body = body } in
    let match_context = build_rule_context context none response.headers in
    let (response', patched) = apply_response_patch e response (some match_context) in
    if patched
    then some (
      rebuild_head_from_model start_line response'.headers (length response'.body),
      response'.body,
    )
    else none

-- The branch for a request.
unfoldable pub patch_request :
    PatchEngine → ProtocolContext → Bytes → List Bytes → Bytes → Option (Bytes × Bytes)
patch_request e context start_line lines body =
    elim (parse_request_start_line start_line empty_request) [
      | none ↦ none
      | some parsed ↦
          let request : HttpRequest = record parsed {
            headers = parse_headers lines 1;
            body = body;
          } in
          let match_context = build_rule_context context (some request) request.headers in
          let (request', patched) = apply_request_patch e request (some match_context) in
          if patched
          then some (
            rebuild_head_from_model start_line request'.headers (length request'.body),
            request'.body,
          )
          else none
    ]

-- `payload = rebuilt_head + "\r\n\r\n" + body`
unfoldable pub assemble : Bytes × Bytes → Bytes
assemble (head, body) =
    rebuild_headers_with_content_length head (length body) ++ (blank_line ++ body)

unfoldable pub patch_parts :
    PatchEngine → ProtocolContext → List Bytes → Bytes → Option (Bytes × Bytes)
unfolding patch_request patch_response
patch_parts e context [] body = none
patch_parts e context (line ∷ lines) body =
    if starts_with_ignore_case line (codes "HTTP/")
    then patch_response e context line (line ∷ lines) body
    else patch_request e context line (line ∷ lines) body

-- The new payload, or `none` for the result `false`, which leaves the payload alone.
unfoldable pub apply_patch : PatchEngine → ProtocolContext → Bytes → Option Bytes
unfolding assemble patch_parts
apply_patch e context payload = elim (split_http_message payload) [
  | none ↦ none
  | some (head, body) ↦ option_map assemble (patch_parts e context (split_lines head) body)
]
