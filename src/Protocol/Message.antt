-- ===== src/Protocol/Message.antt =====
-- src/protocol/http_protocol_adapter.cpp: the free functions that take a message apart and put it
-- together.
pub mod Lengths
use network_proxy.Prelude.{
  ◌==◌, if◌then◌else◌, option_map, is_empty, take, drop, Bytes, codes, find, find_char, substr,
  ends_with_char, pop_back, is_space, to_lower_byte, getlines, to_string, stoul, ℕ, ◌+◌, ◌-◌, ◌%◌,
  ◌^◌, Bool, true, false, not, ◌&&◌, ◌||◌, Option, none, some, List, [], ◌∷◌, ◌++◌, map,
}
use network_proxy.Http.{HeaderMap, HttpRequest, HttpResponse, set_header}
use network_proxy.Protocol.Detector.{ProtocolKind, unknown, http, https}
use network_proxy.Rules.Types.{RuleMatchContext, empty_context}

unfoldable pub starts_with_ignore_case : Bytes → Bytes → Bool
starts_with_ignore_case value [] = true
starts_with_ignore_case [] (d ∷ prefix) = false
starts_with_ignore_case (c ∷ value) (d ∷ prefix) =
    to_lower_byte c == to_lower_byte d && starts_with_ignore_case value prefix

abbrev pub crlf : Bytes
crlf = codes "\r\n"

abbrev pub blank_line : Bytes
blank_line = codes "\r\n\r\n"

-- Head and body; `none` is the result `false`.
unfoldable pub split_http_message : Bytes → Option (Bytes × Bytes)
split_http_message payload = elim (find payload blank_line) [
  | none ↦ none
  | some delimiter_position ↦
      some (take delimiter_position payload, drop (delimiter_position + 4) payload)
]

-- `if (!line.empty() && line.back() == '\r') line.pop_back()`
abbrev pub drop_cr : Bytes → Bytes
drop_cr line = if ends_with_char line b'\r' then pop_back line else line

unfoldable pub split_lines : Bytes → List Bytes
split_lines text = map drop_cr (getlines text)

unfoldable pub skip_space : Bytes → Bytes
skip_space [] = []
skip_space (c ∷ value) = let rest = skip_space value in if is_space c then rest else c ∷ value

unfoldable pub parse_header_lines : List Bytes → HeaderMap → HeaderMap
unfolding skip_space
parse_header_lines [] headers = headers
parse_header_lines (line ∷ lines) headers = parse_header_lines lines (elim (find_char line b':') [
  | none ↦ headers
  | some colon_pos ↦
      set_header headers (take colon_pos line) (skip_space (drop (colon_pos + 1) line))
])

unfoldable pub parse_headers : List Bytes → ℕ → HeaderMap
unfolding parse_header_lines
parse_headers lines start_index = parse_header_lines (drop start_index lines) []

unfoldable pub get_header_value : HeaderMap → Bytes → Bytes
get_header_value [] name = []
get_header_value ((header_name, header_value) ∷ headers) name =
    if starts_with_ignore_case header_name name then header_value else get_header_value headers name

-- `line.find(' ', position)`
abbrev pub find_space : Bytes → ℕ → Option ℕ
find_space line position = option_map (λ i. position + i) (find_char (drop position line) b' ')

unfoldable pub parse_request_start_line : Bytes → HttpRequest → Option HttpRequest
parse_request_start_line line request = elim (find_char line b' ') [
  | none ↦ none
  | some first_space ↦ elim (find_space line (first_space + 1)) [
    | none ↦ none
    | some second_space ↦ some (record request {
      method = take first_space line;
      target = substr line (first_space + 1) (second_space - first_space - 1);
    })
  ]
]

unfoldable pub parse_response_start_line : Bytes → HttpResponse → HttpResponse × Bool
parse_response_start_line line response = elim (find_char line b' ') [
  | none ↦ (response, false)
  | some first_space ↦
      let status_part : Bytes = elim (find_space line (first_space + 1)) [
        | none ↦ drop (first_space + 1) line
        | some second_space ↦ substr line (first_space + 1) (second_space - first_space - 1)
      ] in
      elim (stoul status_part) [
        | none ↦ (response, false)
        | some n ↦ (record response { status_code = n % 2 ^ 16 }, true)
      ]
]

pub record ProtocolContext : Type 0 where
  pub protocol_kind : ProtocolKind
  pub direction : Bytes
  pub host : Bytes
  pub method : Bytes
  pub path : Bytes
  pub remote_port : ℕ
  pub process_name : Bytes

unfoldable pub protocol_name : ProtocolKind → Bytes
protocol_name http = codes "http"
protocol_name https = codes "https"
protocol_name unknown = codes "unknown"

unfoldable pub build_rule_context :
    ProtocolContext → Option HttpRequest → HeaderMap → RuleMatchContext
unfolding protocol_name
build_rule_context context request headers = record empty_context {
  protocol = protocol_name context.protocol_kind;
  direction = context.direction;
  host = if is_empty context.host then get_header_value headers (codes "Host") else context.host;
  method = elim request [ none ↦ [] | some r ↦ r.method ];
  path = elim request [
    | none ↦ context.path
    | some r ↦ if is_empty r.target then context.path else r.target
  ];
  process_name = context.process_name;
  remote_port = context.remote_port;
}

abbrev pub content_length_line : ℕ → Bytes
content_length_line body_size = codes "Content-Length: " ++ to_string body_size

-- The loop over the lines: each line as it is written, and `has_content_length`.
unfoldable pub rebuild_line : ℕ → Bytes → Bytes
rebuild_line body_size line =
    if starts_with_ignore_case line (codes "Content-Length:")
    then content_length_line body_size
    else line

unfoldable pub has_content_length : List Bytes → Bool
has_content_length [] = false
has_content_length (line ∷ lines) =
    starts_with_ignore_case line (codes "Content-Length:") || has_content_length lines

unfoldable pub join_lines : List Bytes → Bytes
join_lines [] = []
join_lines (line ∷ []) = line
join_lines (line ∷ next ∷ lines) = line ++ (crlf ++ join_lines (next ∷ lines))

unfoldable pub rebuild_headers_with_content_length : Bytes → ℕ → Bytes
unfolding split_lines rebuild_line has_content_length join_lines
rebuild_headers_with_content_length head body_size =
    let lines = split_lines head in
    let rebuilt = map (rebuild_line body_size) lines in
    join_lines (
      if not (has_content_length lines) && not (is_empty lines)
      then rebuilt ++ content_length_line body_size ∷ []
      else rebuilt)

unfoldable pub rebuild_header : ℕ → Bytes × Bytes → Bytes
rebuild_header body_size (name, value) =
    if starts_with_ignore_case name (codes "Content-Length")
    then content_length_line body_size ++ crlf
    else name ++ (codes ": " ++ (value ++ crlf))

unfoldable pub names_content_length : HeaderMap → Bool
names_content_length [] = false
names_content_length ((name, value) ∷ headers) =
    starts_with_ignore_case name (codes "Content-Length") || names_content_length headers

unfoldable pub rebuild_headers : ℕ → HeaderMap → Bytes
rebuild_headers body_size [] = []
rebuild_headers body_size (h ∷ headers) =
    rebuild_header body_size h ++ rebuild_headers body_size headers

unfoldable pub rebuild_head_from_model : Bytes → HeaderMap → ℕ → Bytes
unfolding rebuild_header names_content_length rebuild_headers
rebuild_head_from_model start_line headers body_size =
    start_line
    ++ (crlf
        ++ (rebuild_headers body_size headers
            ++ (if names_content_length headers
                then []
                else content_length_line body_size ++ crlf)))
