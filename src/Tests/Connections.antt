-- ===== src/Tests/Connections.antt =====
-- Connections of clients on which the theorems about the TCP server are applied.
use network_proxy.Prelude.{
  Bytes, codes, find, find_from, find_char, rfind_char, to_lower_byte, sto_unsigned, ℕ, min, ◌≡◌,
  refl, inl, Bool, true, false, Option, none, some, List, [], ◌∷◌, ◌++◌,
}
use network_proxy.Config.Types.{default_config}
use network_proxy.Common.Handles.{count}
use network_proxy.Protocol.Detector.{starts_with_any, detect_protocol_kind}
use network_proxy.Transport.Pump.{
  Session, received, closed, round, filled, decide, forward, patch_and_send, flush,
}
use network_proxy.Transport.Reassembly.{append, take_all}
use network_proxy.Transport.Duplex.{
  Duplex, Direction, duplex, advance, settle, run_outbound, run_inbound, Steps, no_step, then_step,
  outbound_runs, inbound_runs,
}
use network_proxy.Transport.Duplex.Conserve.{stream_of}
use network_proxy.Transport.Duplex.Forwards.{AreForwarding}
use network_proxy.Transport.Duplex.Silent.{Steps-silent}
use network_proxy.Transport.Connect.{starts_with_ignore_case, parse_connect_authority}
use network_proxy.Transport.Endpoint.{SockAddr}
use network_proxy.Transport.Session.{
  TcpProxyServer, Answers, pumped, session_of, connected, dial, handle_target, choose_target,
  handle_client,
}
use network_proxy.Transport.Session.Transparent.{
  direction_of, first_of, initial_of, handle_client-transparent,
}
use network_proxy.Transport.Pump.Conserve.{pending}
use network_proxy.Patch.Engine.{PatchEngine}
use network_proxy.Protocol.Manager.Idle.{IsIdle}
use network_proxy.Capture.FlowTable.{find_entry, try_get_upstream}
use network_proxy.Transport.Session.Early.{handle_client-early}
use network_proxy.Transport.Session.Serve.{Startup, serve, serve-closes}

-- No call takes more than three bytes.
abbrev takes_three : ℕ → ℕ → Option ℕ
takes_three offset offered = some (min 3 offered)

abbrev tcp_server : TcpProxyServer
tcp_server = record {
  config = default_config;
  patch_engine = record { config = default_config; rules = none };
  protocol_manager = record {
    config = default_config;
    patch_engine = record { config = default_config; rules = none };
    adapters = [];
  };
}

abbrev resolve : Bytes → ℕ → Option SockAddr
resolve host port = some (record { sa_family = 2; address = host; port_field = port })

abbrev text_of : SockAddr → Bytes
text_of endpoint = endpoint.address

abbrev answers : Answers
answers = record {
  now = 0;
  client_endpoint = record { sa_family = 2; address = codes "10.0.0.2"; port_field = 192 };
  initial_received = none;
  upstream_socket = some 9;
  connects = true;
  sends = true;
}

abbrev connect_request : Bytes
connect_request = codes "CONNECT a.example:443 HTTP/1.1\r\n\r\n"

connect_request-target : parse_connect_authority connect_request ≡ some (codes "a.example", 443)
unfolding parse_connect_authority starts_with_ignore_case to_lower_byte find find_from rfind_char
    find_char sto_unsigned
connect_request-target = refl

-- The first bytes of a ClientHello stand behind the request.
handle_client-early_example :
    handle_client resolve text_of tcp_server
      (record answers { initial_received = some (connect_request ++ (0x16 ∷ 3 ∷ 1 ∷ [])) })
      7
      []
      (7 ∷ [])
    ≡ handle_client resolve text_of tcp_server
        (record answers { initial_received = some connect_request })
        7
        []
        (7 ∷ [])
handle_client-early_example =
    handle_client-early resolve text_of tcp_server answers 7 [] (7 ∷ []) connect_request
      (0x16 ∷ 3 ∷ 1 ∷ []) (codes "a.example", 443) connect_request-target

abbrev startup : Startup
startup = record {
  listen_endpoint = some answers.client_endpoint;
  listen_socket = some 5;
  binds = true;
  listens = true;
}

abbrev accepted : List (Option (ℕ × Answers))
accepted = some (7, answers) ∷ none ∷ some (8, record answers { connects = false }) ∷ []

serve-closes_example :
    count 9 (serve resolve text_of tcp_server startup accepted [] (3 ∷ [])).loop.opened
    ≡ count 9 (3 ∷ [])
serve-closes_example = serve-closes 9 resolve text_of tcp_server startup accepted [] (3 ∷ [])

abbrev way : Direction
way = record { patch = λ kind payload. payload; send = λ sent wire. true }

-- The client has closed its half, and the upstream's answer is to come.
abbrev asked : Duplex
asked = duplex (codes "hello") (closed ∷ []) (received (codes "world") ∷ [])

-- The outbound pump sends, reads the end, and both sockets are shut down.
abbrev half_closed : Duplex
half_closed = run_outbound way (run_outbound way asked)

half_closed-running : (run_outbound way asked).outbound.running ≡ true
unfolding advance settle round filled decide forward patch_and_send detect_protocol_kind
    starts_with_any append
half_closed-running = refl

half_closed-ended : half_closed.outbound.running ≡ false
unfolding advance settle round filled decide forward patch_and_send detect_protocol_kind
    starts_with_any append flush take_all
half_closed-ended = refl

answer-running : half_closed.inbound.running ≡ true
answer-running = refl

half_closed-Steps : Steps way way asked half_closed
half_closed-Steps =
    then_step (then_step no_step (outbound_runs refl)) (outbound_runs half_closed-running)

-- The round in which the inbound pump would read the answer.
abbrev answered : Duplex
answered = run_inbound way half_closed

Steps-silent_example :
    (half_closed.shut ≡ true)
    × (answered.outbound.delivered ≡ half_closed.outbound.delivered)
    × (answered.inbound.delivered ≡ half_closed.inbound.delivered)
Steps-silent_example =
    Steps-silent way way (codes "hello") (closed ∷ []) (received (codes "world") ∷ []) half_closed
      answered half_closed-Steps (inl half_closed-ended)
      (then_step no_step (inbound_runs answer-running))

abbrev idle_engine : PatchEngine
idle_engine = record {
  config = record default_config {
    add_proxy_header = false;
    append_debug_suffix = false;
    enable_text_patch = false;
  };
  rules = none;
}

idle_engine-IsIdle : IsIdle idle_engine
idle_engine-IsIdle = record { rules = refl; header = refl; suffix = refl; text = refl; hex = refl }

abbrev idle_server : TcpProxyServer
idle_server = record tcp_server {
  patch_engine = idle_engine;
  protocol_manager = record tcp_server.protocol_manager { patch_engine = idle_engine };
}

-- The client speaks first, and asks for no tunnel.
abbrev spoken : Answers
spoken = record answers { initial_received = some (codes "hello") }

abbrev half : Bytes → Session
half =
    session_of idle_server false default_config.tcp_upstream_host default_config.tcp_upstream_port

spoken-course :
    (handle_client resolve text_of idle_server spoken 7 [] (7 ∷ [])).course
    ≡ pumped (half (codes "outbound")) (half (codes "inbound")) (codes "hello")
unfolding handle_client handle_target dial connected choose_target parse_connect_authority
    starts_with_ignore_case to_lower_byte find find_from find_entry try_get_upstream
spoken-course = refl

abbrev sends : List Bytes → Bytes → Bool
sends sent wire = true

abbrev forth : Direction
forth = direction_of (half (codes "outbound")) sends

abbrev back : Direction
back = direction_of (half (codes "inbound")) sends

abbrev greeted : Duplex
greeted = duplex (codes "hello") (received (codes " again") ∷ []) (received (codes "world") ∷ [])

-- Each pump has run one round.
abbrev both_ran : Duplex
both_ran = run_inbound back (run_outbound forth greeted)

both_ran-Steps : Steps forth back greeted both_ran
both_ran-Steps = then_step (then_step no_step (outbound_runs refl)) (inbound_runs refl)

handle_client-transparent_example :
    (stream_of both_ran.outbound ≡ codes "hello" ++ pending (received (codes " again") ∷ []))
    × (stream_of both_ran.inbound ≡ pending (received (codes "world") ∷ []))
    × (codes "hello" ≡ first_of (initial_of spoken))
    × AreForwarding (codes "hello") (received (codes " again") ∷ []) both_ran
handle_client-transparent_example =
    handle_client-transparent resolve text_of idle_server spoken 7 [] (7 ∷ [])
      (half (codes "outbound")) (half (codes "inbound")) (codes "hello") sends sends
      (received (codes " again") ∷ []) (received (codes "world") ∷ []) {d = both_ran}
      idle_engine-IsIdle idle_engine-IsIdle spoken-course both_ran-Steps
