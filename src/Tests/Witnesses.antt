-- ===== src/Tests/Witnesses.antt =====
-- The theorems at concrete inputs where their hypotheses hold.
use network_proxy.Prelude.{
  leb, if◌then◌else◌, ◌>>=◌, length, take, Bytes, codes, find, find_from, is_space, to_lower_byte,
  is_digit, sto_unsigned, ◌+◌, ◌<◌, ◌≡◌, refl, ◌⊎◌, Bool, true, none, some, List, [], ◌∷◌, ◌++◌,
  arith,
}
use network_proxy.Config.Types.{AppConfig, default_config}
use network_proxy.Capture.FlowTable.{FlowKey, same_key, remember_mapping, try_get_upstream}
use network_proxy.Capture.FlowTable.View.{lookup, lookup-remember, lookup-try_get}
use network_proxy.Capture.Redirect.{new_controller, initialize, tick_health}
use network_proxy.Capture.Redirect.Reachable.{
  created, initialized_by, ticked, IsSound, Reachable-IsSound,
}
use network_proxy.Http.{HttpRequest, HttpResponse}
use network_proxy.Protocol.Detector.{http, detect_protocol_kind}
use network_proxy.Rules.Apply.{apply_http_request, apply_http_response}
use network_proxy.Rules.Apply.Unchanged.{apply_http-unchanged}
use network_proxy.Rules.Hex.{decode_hex_string}
use network_proxy.Rules.Hex.RoundTrip.{encode, decode_hex_string-encode}
use network_proxy.Rules.Match.Satisfies.{Satisfies}
use network_proxy.Rules.Replace.{replace_all}
use network_proxy.Rules.Replace.OnePass.{substitute, occurrences, replace_all-substitute}
use network_proxy.Rules.Types.{
  RuleMatchContext, RuleCondition, RuleDefinition, empty_context, empty_condition, empty_rule,
}
use network_proxy.Tls.Sni.{try_extract_sni_from_client_hello}
use network_proxy.Tls.Sni.InBounds.{IsSafe, try_extract_sni-IsSafe}
use network_proxy.Transport.Pump.{Event, received, run, start}
use network_proxy.Transport.Pump.Conserve.{pass}
use network_proxy.Transport.Pump.Stall.{stalled, run_stalls}
use network_proxy.Transport.Reassembly.{blank_line, parse_content_length, try_take_http_message}
use network_proxy.Transport.Reassembly.Frames.{IsFramed, try_take-frames, try_take-wraps}

abbrev always : List Bytes → Bytes → Bool
always sent payload = true

abbrev half_post : Bytes
half_post = codes "POST /a HTTP/1.1\r\nContent-Length: 5\r\n\r\nhel"

abbrev other_half : List Event
other_half = received (codes "lo") ∷ []

half_post-http : detect_protocol_kind half_post ≡ http
unfolding detect_protocol_kind
half_post-http = refl

half_post-partial : try_take_http_message half_post ≡ none
unfolding try_take_http_message find find_from sto_unsigned is_space is_digit to_lower_byte
half_post-partial = refl

run_stalls_example :
    run pass always 7 (start []) (received half_post ∷ other_half) ≡ (stalled half_post, other_half)
run_stalls_example =
    run_stalls pass always 6 half_post other_half half_post-http half_post-partial (omega arith)

replace_all-substitute_example :
    replace_all (codes "aaa") (codes "aa") (codes "b")
    ≡ some (
      substitute (codes "aa") (codes "b") 0 (codes "aaa"),
      occurrences (codes "aa") 0 (codes "aaa"),
    )
replace_all-substitute_example =
    replace_all-substitute (codes "aaa") (codes "aa") (codes "b") (λ e. cc)

decode_hex_string-encode_example :
    decode_hex_string (encode (0 ∷ 171 ∷ 255 ∷ [])) ≡ some (0 ∷ 171 ∷ 255 ∷ [])
decode_hex_string-encode_example = decode_hex_string-encode (0 ∷ 171 ∷ 255 ∷ []) (omega arith)

abbrev api_condition : RuleCondition
api_condition = record empty_condition { protocol = codes "http"; path_contains = codes "/api" }

abbrev api_context : RuleMatchContext
api_context = record empty_context { protocol = codes "HTTP"; path = codes "/v1/API/x" }

abbrev one_rule : List RuleDefinition
one_rule = record empty_rule { when = api_condition } ∷ []

abbrev some_request : HttpRequest
some_request = record { method = codes "GET"; target = codes "/"; headers = []; body = codes "x" }

abbrev some_response : HttpResponse
some_response = record { status_code = 200; headers = []; body = codes "x" }

apply_http-unchanged_example :
    (((apply_http_request one_rule some_request api_context).1 ≡ true)
      ⊎ ((apply_http_request one_rule some_request api_context).0 ≡ some_request))
    × (((apply_http_response one_rule some_response api_context).1 ≡ true)
        ⊎ ((apply_http_response one_rule some_response api_context).0 ≡ some_response))
apply_http-unchanged_example = apply_http-unchanged one_rule api_context some_request some_response

abbrev post_head : Bytes
post_head = codes "POST /a HTTP/1.1\r\nContent-Length: 5\r\n\r\n"

post-IsFramed : IsFramed post_head (codes "hello")
unfolding find parse_content_length find_from sto_unsigned is_space is_digit to_lower_byte
post-IsFramed = record {
  head_end = 35;
  ends = refl;
  whole = refl;
  announces = refl;
  fits = omega arith;
}

try_take-frames_example :
    (try_take_http_message (post_head ++ (codes "hello" ++ codes "GET"))
      ≡ some (post_head ++ codes "hello", codes "GET"))
    × (try_take_http_message (post_head ++ codes "hel") ≡ none)
try_take-frames_example =
    try_take-frames post_head (codes "hello") (codes "GET") (codes "hel") post-IsFramed
      (omega arith)

abbrev minus_one : Bytes
minus_one = codes "GET / HTTP/1.1\r\nContent-Length: -1\r\n\r\nabc"

minus_one-end : find minus_one blank_line ≡ some 34
unfolding find
minus_one-end = refl

minus_one-length : parse_content_length (take (34 + 4) minus_one) ≡ 18446744073709551615
unfolding parse_content_length find find_from sto_unsigned is_space is_digit to_lower_byte
minus_one-length = refl

try_take-wraps_example :
    (message : Bytes) × (rest : Bytes) × (try_take_http_message minus_one ≡ some (message, rest))
    × (length message < 34 + 4)
try_take-wraps_example =
    try_take-wraps minus_one 34 18446744073709551615 minus_one-end minus_one-length (omega arith)
      (omega arith) (omega arith)

abbrev flow : FlowKey
flow = record { protocol = 6; source_ip = codes "10.0.0.1"; source_port = 50000 }

abbrev other_flow : FlowKey
other_flow = record { protocol = 17; source_ip = codes "10.0.0.1"; source_port = 50000 }

lookup-remember_example : lookup 100 flow (remember_mapping 5 flow (codes "h") 443 []) ≡ (
    if same_key flow flow
    then (if leb 100 (5 + 120000) then some (codes "h", 443) else none)
    else lookup 100 flow [])
lookup-remember_example = lookup-remember 5 100 flow flow (codes "h") 443 [] tt (omega arith)

lookup-try_get_example : lookup 200 other_flow (try_get_upstream 100 flow []).1 ≡ (
    if same_key flow other_flow
    then (lookup 100 flow [] >>= λ found. if leb 200 (100 + 120000) then some found else none)
    else lookup 200 other_flow [])
lookup-try_get_example = lookup-try_get 100 200 flow other_flow [] tt (omega arith)

abbrev redirecting : AppConfig
redirecting = record default_config { wfp_redirect_enabled = true }

Reachable-IsSound_example :
    IsSound redirecting (tick_health (initialize (new_controller redirecting)).0)
Reachable-IsSound_example = Reachable-IsSound (ticked (initialized_by created))

abbrev short_hello : Bytes
short_hello = 0x16 ∷ 0x03 ∷ 1 ∷ 0 ∷ 16 ∷ 1 ∷ 0 ∷ 0 ∷ 12 ∷ 3 ∷ []

try_extract_sni-IsSafe_example : IsSafe (try_extract_sni_from_client_hello short_hello)
try_extract_sni-IsSafe_example = try_extract_sni-IsSafe short_hello
