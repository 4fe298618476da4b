-- ===== src/Tests/Traffic.antt =====
-- Packets and payloads on which the theorems about the capture and the patches are applied.
use network_proxy.Prelude.{
  if◌then◌else◌, length, All, Bytes, codes, find, find_from, substr, to_string, differs, all_differ,
  ℕ, ◌/◌, ◌%◌, ◌≡◌, refl, ◌≢◌, true, false, Option, none, some, [], ◌∷◌, ◌++◌, arith,
}
use network_proxy.Config.Types.{AppConfig, default_config}
use network_proxy.Capture.FlowTable.{same_key}
use network_proxy.Capture.FlowTable.View.{lookup}
use network_proxy.Capture.Packet.{
  Redirect, write_at, ipv4_to_string, redirect_v4, rewrite_v4, redirect_of,
  rewrite_packet_to_local_proxy,
}
use network_proxy.Capture.Packet.Once.{redirect_of-once, rewrite_v4-address, rewrite-lookup}
use network_proxy.Patch.Bytes
use network_proxy.Patch.Engine.{
  PatchEngine, transport_rules, text_patch, hex_patch, hex_replace, apply_transport_patch,
}
use network_proxy.Patch.Unchanged.{apply_transport_patch-unchanged}
use network_proxy.Protocol.Detector.{unknown, starts_with_any, detect_protocol_kind}
use network_proxy.Protocol.Detector.Final.{detect-append}
use network_proxy.Rules.Load.{load_from_file}
use network_proxy.Rules.Load.Fields.{IsWellFormed}
use network_proxy.Rules.Load.WellFormed.{load_from_file-IsWellFormed}
use network_proxy.Protocol.Manager.{http_protocol_adapter}
use network_proxy.Transport.Endpoint.{SockAddr}
use network_proxy.Transport.Session.{TcpProxyServer, Answers}
use network_proxy.Transport.Connect.{parse_connect_authority}
use network_proxy.Transport.Connect.Tunnel.{connect_line, parse_connect_authority-port}

-- `InetNtopA` for IPv4, and the refusal of it for IPv6.
abbrev dotted : ℕ → Option Bytes
dotted a = some (
    to_string (a % 256)
    ++ codes "."
    ++ to_string (a / 256 % 256)
    ++ codes "."
    ++ to_string (a / 65536 % 256)
    ++ codes "."
    ++ to_string (a / 16777216))

abbrev refuses : Bytes → Option Bytes
refuses a = none

-- TCP from 10.0.0.2:49152 to 93.184.216.34:80.
abbrev packet : Bytes
packet =
    0x45 ∷ 0 ∷ 0 ∷ 24 ∷ 0 ∷ 0 ∷ 0 ∷ 0 ∷ 64 ∷ 6 ∷ 0 ∷ 0 ∷ 10 ∷ 0 ∷ 0 ∷ 2 ∷ 93 ∷ 184 ∷ 216 ∷ 34 ∷ 0xC0
    ∷ 0 ∷ 0 ∷ 80 ∷ []

abbrev listening : AppConfig
listening = record default_config { tcp_enabled = true; tcp_listen_port = 8080 }

abbrev redirect : Redirect
redirect = record {
  packet =
      0x45 ∷ 0 ∷ 0 ∷ 24 ∷ 0 ∷ 0 ∷ 0 ∷ 0 ∷ 64 ∷ 6 ∷ 0 ∷ 0 ∷ 10 ∷ 0 ∷ 0 ∷ 2 ∷ 1 ∷ 0 ∷ 0 ∷ 127 ∷ 0xC0
      ∷ 0 ∷ 0x1F ∷ 0x90 ∷ [];
  key = record { protocol = 6; source_ip = codes "10.0.0.2"; source_port = 49152 };
  destination_host = codes "93.184.216.34";
  destination_port = 80;
}

packet-redirect : redirect_of dotted refuses listening packet ≡ some redirect
unfolding redirect_of rewrite_v4 redirect_v4 ipv4_to_string write_at to_string
packet-redirect = refl

packet-redirect_v4 : rewrite_v4 dotted refuses listening packet ≡ some redirect
unfolding rewrite_v4 redirect_v4 ipv4_to_string write_at to_string
packet-redirect_v4 = refl

redirect_of-once_example :
    (length redirect.packet ≡ length packet)
    × (redirect_of dotted refuses listening redirect.packet ≡ none)
redirect_of-once_example = redirect_of-once dotted refuses listening packet redirect packet-redirect

rewrite_v4-address_example : substr redirect.packet 16 4 ≡ 1 ∷ 0 ∷ 0 ∷ 127 ∷ []
rewrite_v4-address_example =
    rewrite_v4-address dotted refuses listening packet redirect packet-redirect_v4

packet-rewritten : (rewrite_packet_to_local_proxy dotted refuses listening 5000 packet []).2 ≡ true
unfolding rewrite_packet_to_local_proxy redirect_of rewrite_v4 redirect_v4
packet-rewritten = refl

rewrite-lookup_example :
    lookup 60000 redirect.key
      (rewrite_packet_to_local_proxy dotted refuses listening 5000 packet []).1
    ≡ (if same_key redirect.key redirect.key
        then some (codes "93.184.216.34", 80)
        else lookup 60000 redirect.key [])
unfolding to_string
rewrite-lookup_example =
    rewrite-lookup dotted refuses listening 5000 60000 packet [] redirect.key refl packet-rewritten
      tt (omega arith) (omega arith)

tells-http : detect_protocol_kind (codes "POST /") ≢ unknown
unfolding detect_protocol_kind starts_with_any
tells-http e = cc e

detect-append_example :
    detect_protocol_kind (codes "POST /" ++ codes " HTTP/1.1")
    ≡ detect_protocol_kind (codes "POST /")
detect-append_example = detect-append (codes "POST /") (codes " HTTP/1.1") tells-http

abbrev engine : PatchEngine
engine = record {
  config = record default_config {
    enable_text_patch = true;
    outbound_find = codes "hello";
    outbound_replace = codes "bye";
  };
  rules = none;
}

nothing-found :
    (apply_transport_patch engine (codes "good day") (codes "tcp") (codes "outbound") none).1
    ≡ false
unfolding apply_transport_patch transport_rules text_patch hex_patch hex_replace Bytes.replace_all
    Bytes.replace_loop Bytes.decode_hex_string find find_from
nothing-found = refl

apply_transport_patch-unchanged_example :
    (apply_transport_patch engine (codes "good day") (codes "tcp") (codes "outbound") none).0
    ≡ codes "good day"
apply_transport_patch-unchanged_example =
    apply_transport_patch-unchanged engine (codes "good day") (codes "tcp") (codes "outbound") none
      nothing-found

parse_connect_authority-port_example :
    parse_connect_authority
      (connect_line (codes "a.example:65979") (codes "HTTP/1.1") ++ (codes "\r\n" ++ codes "\r\n"))
    ≡ some (codes "a.example", 443)
unfolding to_string differs
parse_connect_authority-port_example =
    parse_connect_authority-port (codes "a.example") (codes "HTTP/1.1") (codes "\r\n") 65979
      (λ e. cc e) (all_differ b' ' (codes "a.example") refl)
      (all_differ b'\r' (codes "a.example") refl) (all_differ b'\r' (codes "HTTP/1.1") refl)
      (omega arith)

abbrev rules_file : Bytes
rules_file =
    codes
      "rule \"up\" {\nwhen.host_contains = Example\nwhen.remote_port = 443\n}\nrule x {\nwhen.port = 1\n"

load_from_file-IsWellFormed_example : All IsWellFormed (load_from_file (some rules_file)).rules
load_from_file-IsWellFormed_example = load_from_file-IsWellFormed (some rules_file)

abbrev idle_engine : PatchEngine
idle_engine = record {
  config = record default_config {
    add_proxy_header = false;
    append_debug_suffix = false;
    enable_text_patch = false;
    enable_hex_patch = false;
  };
  rules = none;
}

abbrev tcp_server : TcpProxyServer
tcp_server = record {
  config = listening;
  patch_engine = idle_engine;
  protocol_manager = record {
    config = listening;
    patch_engine = idle_engine;
    adapters = http_protocol_adapter ∷ [];
  };
}

abbrev resolve : Bytes → ℕ → Option SockAddr
resolve host port = some (record { sa_family = 2; address = host; port_field = port })

abbrev text_of : SockAddr → Bytes
text_of endpoint = endpoint.address

-- The client of the packet, 55 seconds later.
abbrev asking : Answers
asking = record {
  now = 60000;
  client_endpoint = record { sa_family = 2; address = codes "10.0.0.2"; port_field = 192 };
  initial_received = some (codes "GET / HTTP/1.1\r\n\r\n");
  upstream_socket = some 9;
  connects = true;
  sends = true;
}
