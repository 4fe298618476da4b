-- ===== src/Protocol/Detector.antt =====
-- src/protocol/protocol_detector.cpp: the kind of a payload, by its first bytes.
pub mod Final
use network_proxy.Prelude.{
  ◌==◌, if◌then◌else◌, is_empty, Bytes, codes, starts_with, Bool, false, ◌&&◌, ◌||◌, List, [], ◌∷◌,
}

pub data ProtocolKind : Type 0 where
  unknown http https : ProtocolKind

abbrev pub k_http_request_methods : List Bytes
k_http_request_methods =
    codes "GET "
    ∷ codes "POST "
    ∷ codes "PUT "
    ∷ codes "DELETE "
    ∷ codes "PATCH "
    ∷ codes "HEAD "
    ∷ codes "OPTIONS "
    ∷ codes "TRACE "
    ∷ codes "CONNECT "
    ∷ []

unfoldable pub starts_with_any : Bytes → List Bytes → Bool
starts_with_any payload [] = false
starts_with_any payload (prefix ∷ prefixes) =
    starts_with payload prefix || starts_with_any payload prefixes

-- Three bytes at least, and the first two of a TLS record.
abbrev pub is_tls : Bytes → Bool
is_tls (first_byte ∷ second_byte ∷ third_byte ∷ payload) = first_byte == 0x16 && second_byte == 0x03
is_tls _ = false

unfoldable pub detect_protocol_kind : Bytes → ProtocolKind
unfolding starts_with_any
detect_protocol_kind payload =
    if is_empty payload
    then unknown
    else if starts_with_any payload k_http_request_methods
    then http
    else if starts_with payload (codes "HTTP/1.0 ") || starts_with payload (codes "HTTP/1.1 ")
    then http
    else if is_tls payload
    then https
    else unknown
