-- ===== src/Tests/Messages.antt =====
-- Messages and texts on which the theorems about the parsers and the rules are applied.
use network_proxy.Prelude.{
  All, Bytes, codes, find, find_from, is_space, to_lower_byte, getlines, is_digit, sto_unsigned,
  Without, ℕ, zero, suc, ◌≡◌, refl, Bool, true, ◌||◌, List, [], ◌∷◌, ◌++◌, arith,
}
use network_proxy.Rules.Apply.{apply_transport}
use network_proxy.Rules.Apply.Order.{apply_transport-append}
use network_proxy.Rules.Types.{RuleDefinition, empty_context, empty_rule}
use network_proxy.Protocol.Detector.{ProtocolKind, starts_with_any, detect_protocol_kind}
use network_proxy.Transport.Pump.{closed, run, start}
use network_proxy.Transport.Pump.Forwards.{IsWhole, forwarded, reads, run-forwards}
use network_proxy.Transport.Reassembly.{try_take_http_message}
use network_proxy.Tls.Sni.{found, try_extract_sni_from_client_hello}
use network_proxy.Tls.Sni.Hello.{hello_fields, client_hello, try_extract_sni-client_hello}
use mathlib.Core.List.{Mem}
use network_proxy.Protocol.Message.{
  split_lines, content_length_line, join_lines, rebuild_headers_with_content_length,
}
use network_proxy.Protocol.Message.Lengths.{Announce, rebuild-Announce}

abbrev zeros : ℕ → Bytes
zeros zero = []
zeros (suc n) = 0 ∷ zeros n

-- A ClientHello for a.example with one extension of another type in front.
try_extract_sni-client_hello_example :
    try_extract_sni_from_client_hello (
      client_hello 1 0 0 (zeros 34) (
        hello_fields
          (zeros 3)
          (0x13 ∷ 0x01 ∷ [])
          (0 ∷ [])
          ((43, 3 ∷ 4 ∷ []) ∷ [])
          (codes "a.example")
          []))
    ≡ found (codes "a.example")
try_extract_sni-client_hello_example =
    try_extract_sni-client_hello 1 0 0 (zeros 34) (zeros 3) (0x13 ∷ 0x01 ∷ []) (0 ∷ [])
      ((43, 3 ∷ 4 ∷ []) ∷ []) (codes "a.example") [] refl (λ e. cc e)
      ((λ e. absurd (omega arith)), tt)

rebuild-Announce_example :
    (lines : List Bytes) × (rebuild_headers_with_content_length (codes "HTTP/1.1 200 OK\r\nX: 1") 5
      ≡ join_lines lines)
    × All (Without b'\n') lines
    × Mem (content_length_line 5) lines
    × Announce 5 lines
unfolding split_lines getlines
rebuild-Announce_example = rebuild-Announce (codes "HTTP/1.1 200 OK\r\nX: 1") 5 refl

abbrev renames : Bytes → Bytes → RuleDefinition
renames find_text replace_text = record empty_rule {
  name = codes "renames";
  action = record empty_rule.action { text_find = find_text; text_replace = replace_text };
}

abbrev first_rules : List RuleDefinition
first_rules = renames (codes "a") (codes "b") ∷ []

abbrev second_rules : List RuleDefinition
second_rules = renames (codes "b") (codes "c") ∷ []

apply_transport-append_example :
    apply_transport (first_rules ++ second_rules) (codes "aab") empty_context ≡ (
      (apply_transport second_rules
          (apply_transport first_rules (codes "aab") empty_context).0
          empty_context).0,
      (apply_transport first_rules (codes "aab") empty_context).1
          || (apply_transport second_rules
              (apply_transport first_rules (codes "aab") empty_context).0
              empty_context).1,
    )
apply_transport-append_example =
    apply_transport-append first_rules second_rules (codes "aab") empty_context

abbrev get : Bytes
get = codes "GET / HTTP/1.1\r\n\r\n"

abbrev post : Bytes
post = codes "POST /a HTTP/1.1\r\nContent-Length: 2\r\n\r\nhi"

get-IsWhole : IsWhole get
unfolding detect_protocol_kind starts_with_any try_take_http_message find find_from sto_unsigned
    is_space is_digit to_lower_byte
get-IsWhole = (refl, refl)

post-IsWhole : IsWhole post
unfolding detect_protocol_kind starts_with_any try_take_http_message find find_from sto_unsigned
    is_space is_digit to_lower_byte
post-IsWhole = (refl, refl)

abbrev marked : ProtocolKind → Bytes → Bytes
marked kind payload = payload ++ codes "!"

abbrev succeeds : List Bytes → Bytes → Bool
succeeds sent wire = true

run-forwards_example :
    run marked succeeds 2 (start []) (reads (get ∷ post ∷ []) (closed ∷ []))
    ≡ (forwarded ((get ++ codes "!") ∷ (post ++ codes "!") ∷ []), closed ∷ [])
run-forwards_example =
    run-forwards marked succeeds get (post ∷ []) (closed ∷ []) (λ sent wire. refl) get-IsWhole
      (post-IsWhole, tt)
