-- ===== src/Tests/Systems.antt =====
-- Sockets, packets and datagrams on which the theorems about the servers are applied.
use network_proxy.Prelude.{
  length, Bytes, codes, to_string, ℕ, ◌/◌, ◌%◌, ◌≡◌, refl, true, false, Option, none, some, List,
  [], ◌∷◌, ◌++◌, map,
}
use network_proxy.Config.Types.{AppConfig, default_config}
use network_proxy.Capture.FlowTable.{Table}
use network_proxy.Capture.Packet.{Redirect, rewrite_packet_to_local_proxy}
use network_proxy.Capture.Divert.{WinDivertCapture, Relay}
use network_proxy.Capture.Divert
use network_proxy.Capture.Divert.Sent.{fate, packets, run-relays}
use network_proxy.Patch.Engine.{PatchEngine}
use network_proxy.Protocol.Manager.{ProtocolManager, http_protocol_adapter}
use network_proxy.Protocol.Manager.Idle.{IsIdle}
use network_proxy.Transport.Datagram.{UdpProxyServer, Udp, Turn, serve_loop}
use network_proxy.Transport.Datagram.Relay.{
  IsIdleServer, Exchange, turn_of, zip, serve_loop-answers,
}
use network_proxy.Transport.Endpoint.{SockAddr}

abbrev dotted : ℕ → Option Bytes
dotted a = some (
    to_string (a % 256)
    ++ (codes "."
        ++ (to_string (a / 256 % 256)
            ++ (codes "."
                ++ (to_string (a / 65536 % 256) ++ (codes "." ++ to_string (a / 16777216)))))))

abbrev refuses : Bytes → Option Bytes
refuses a = none

-- UDP from 10.0.0.2:49152 to 8.8.8.8:53.
abbrev query : Bytes
query =
    0x45 ∷ 0 ∷ 0 ∷ 24 ∷ 0 ∷ 0 ∷ 0 ∷ 0 ∷ 64 ∷ 17 ∷ 0 ∷ 0 ∷ 10 ∷ 0 ∷ 0 ∷ 2 ∷ 8 ∷ 8 ∷ 8 ∷ 8 ∷ 0xC0 ∷ 0
    ∷ 0 ∷ 53 ∷ []

abbrev listening : AppConfig
listening = record default_config {
  capture_enabled = true;
  use_windivert = true;
  udp_listen_port = 8080;
  add_proxy_header = false;
  append_debug_suffix = false;
  enable_text_patch = false;
}

abbrev redirected : Redirect
redirected = record {
  packet =
      0x45 ∷ 0 ∷ 0 ∷ 24 ∷ 0 ∷ 0 ∷ 0 ∷ 0 ∷ 64 ∷ 17 ∷ 0 ∷ 0 ∷ 10 ∷ 0 ∷ 0 ∷ 2 ∷ 1 ∷ 0 ∷ 0 ∷ 127 ∷ 0xC0
      ∷ 0 ∷ 0x1F ∷ 0x90 ∷ [];
  key = record { protocol = 17; source_ip = codes "10.0.0.2"; source_port = 49152 };
  destination_host = codes "8.8.8.8";
  destination_port = 53;
}

abbrev idle_engine : PatchEngine
idle_engine = record { config = listening; rules = none }

idle_engine-IsIdle : IsIdle idle_engine
idle_engine-IsIdle = record { rules = refl; header = refl; suffix = refl; text = refl; hex = refl }

abbrev manager : ProtocolManager
manager = record {
  config = listening;
  patch_engine = idle_engine;
  adapters = http_protocol_adapter ∷ [];
}

abbrev udp_server : UdpProxyServer
udp_server = record {
  config = listening;
  patch_engine = idle_engine;
  protocol_manager = manager;
  upstream_v6_valid = false;
}

udp_server-IsIdleServer : IsIdleServer udp_server
udp_server-IsIdleServer = record { engine = idle_engine-IsIdle; manager = idle_engine-IsIdle }

-- The text of an address is its bytes here.
abbrev text_of : SockAddr → Bytes
text_of endpoint = endpoint.address

abbrev resolve : Bytes → ℕ → Option SockAddr
resolve host port = some (record { sa_family = 2; address = host; port_field = port })

-- The port 49152, in network order.
abbrev client : SockAddr
client = record { sa_family = 2; address = codes "10.0.0.2"; port_field = 192 }

abbrev other_client : SockAddr
other_client = record { sa_family = 2; address = codes "10.0.0.3"; port_field = 192 }

abbrev quiet : Table → List (Option Bytes) → Udp
quiet table waiting = record {
  flow_table = table;
  waiting_v4 = waiting;
  waiting_v6 = [];
  to_upstream = [];
  to_client = [];
}

abbrev two_exchanges : List Exchange
two_exchanges =
    record { now = 0; client = client; question = codes "a?"; answer = codes "a!" }
    ∷ record { now = 5; client = other_client; question = codes "b?"; answer = codes "b!" }
    ∷ []

-- One answer is late.
serve_loop-answers_example :
    (serve_loop resolve text_of udp_server
      (map turn_of two_exchanges)
      (quiet [] (some (codes "late") ∷ []))).to_client
    ≡ zip (client ∷ other_client ∷ []) (codes "late" ∷ codes "a!" ∷ codes "b!" ∷ [])
serve_loop-answers_example =
    serve_loop-answers resolve text_of udp_server two_exchanges (codes "late" ∷ [])
      (quiet [] (some (codes "late") ∷ []))
      (λ host port. (record { sa_family = 2; address = host; port_field = port }, refl, refl))
      udp_server-IsIdleServer refl

abbrev table : Table
table = (rewrite_packet_to_local_proxy dotted refuses listening 5000 query []).1

abbrev question_turn : Turn
question_turn = record {
  now = 60000;
  received = some (client, codes "who?");
  upstream_sends = true;
  arrived_v4 = [];
  arrived_v6 = [];
}

abbrev open_capture : WinDivertCapture
open_capture = record {
  config = listening;
  module_handle = true;
  functions = Divert.no_functions;
  divert_handle = true;
}

abbrev captured_turns : List Divert.Turn
captured_turns =
    record { now = 0; received = some query; sends = false }
    ∷ record { now = 1; received = none; sends = true }
    ∷ record { now = 2; received = some redirected.packet; sends = true }
    ∷ []

abbrev empty_relay : Relay
empty_relay = record { flow_table = []; sent = []; packet_count = 0; redirected_count = 0 }

run-relays_example :
    ((Divert.run dotted refuses (λ p. p) open_capture captured_turns empty_relay).sent
      ≡ map (fate dotted refuses (λ p. p) open_capture) (packets captured_turns))
    × (length (fate dotted refuses (λ p. p) open_capture query) ≡ length query)
run-relays_example =
    run-relays dotted refuses (λ p. p) open_capture captured_turns empty_relay query refl refl refl
      λ p. refl
