-- ===== src/Lib.antt =====
-- network_proxy: a transparent proxy for TCP and UDP that redirects the traffic of its machine to
-- itself, recognises HTTP, and changes what passes by rules and patches.
--
-- The parts and how they interact. A configuration file is read into `AppConfig`
-- (src/config/app_config.cpp: Config) and a rules file into a list of rules
-- (src/rules/rule_engine.cpp: Rules). The capture (src/capture: Capture) rewrites packets so that
-- they reach the proxy, and remembers in the flow table where they were going; the WFP controller
-- keeps the redirect policy. The program (src/app: Application) reads its files and starts the
-- proxy (src/proxy: Proxy), which chooses a capture and runs the servers. The TCP server
-- (src/transport: Transport) runs one pump in each direction of a connection: the pump collects
-- bytes in a reassembly buffer, asks the detector for the protocol (src/protocol: Protocol), cuts
-- HTTP messages out of the buffer, and hands each to the protocol manager, whose HTTP adapter
-- splits it, applies the patch engine (src/patch: Patch) and rebuilds it; what no adapter takes is
-- patched as plain bytes. The UDP server does the same for each datagram and its answer. The
-- interception of HTTPS (src/tls: Tls) makes a certificate for the host of a CONNECT request, runs
-- two child processes of OpenSSL, and patches the decrypted text that passes between them. Log
-- lines are filtered by their level (src/logging: Logging).
--
-- The files, each with the functions it translates:
--   Prelude/*            Boolean tests, list lemmas, std::string and its conversions, searching.
--   Prelude/Text/Decimal what std::to_string writes, and std::stoul reads.
--   Common/Handles       the handles and sockets that are open, and close_socket_if_valid.
--   Common, Http         src/common/string_utils.cpp; src/protocol/http_types.h and its map.
--   Rules/Types, Text    the structs of src/rules/rule_engine.h, and the helpers on text.
--   Rules/Replace, Hex   replace_all and decode_hex_string.
--   Rules/Match, Apply   matches, apply_transport, apply_http_request and apply_http_response.
--   Rules/Load           load_from_file, on the lines of the file.
--   Config/Types, Parse, Keys, Load   AppConfig, the parsers of values, the keys, load_from_file.
--   Logging              parse_log_level, to_string, set_level and log.
--   Patch/Bytes, Engine  the engine's own replacement and decoder, and its three patches.
--   Protocol/Detector    detect_protocol_kind.
--   Protocol/Message, Adapter, Manager   the HTTP adapter's parser, rebuilding and apply_patch; the
--                        order in which adapters are asked.
--   Transport/Reassembly the buffer and try_take_http_message.
--   Transport/Connect    parse_connect_authority.
--   Transport/Pump       the closures pump and patch_and_send of handle_client.
--   Transport/Duplex     the two threads of a connection, interleaved, and shutdown_socket_pair.
--   Transport/Session    handle_client around its pumps; Session/Serve: serve and its accept loop.
--   Transport/Datagram   the loop of UdpProxyServer::serve; Datagram/Serve: serve with its sockets.
--   Transport/Endpoint, Send   src/transport/socket_utils.cpp: addresses, and send_all.
--   Tls/Certificate      src/tls/certificate_manager.cpp and ensure_leaf_certificate_for_host.
--   Tls/Process          src/tls/openssl_process.cpp.
--   Tls/Session          run_tls_mitm_session with its handles and sockets; Session/Streams: the
--                        loops of its threads.
--   Tls/Sni, Plaintext   try_extract_sni_from_client_hello, patch_https_plaintext_http.
--   Capture/FlowTable    remember_mapping, try_get_upstream and prune_expired_locked.
--   Capture/Packet       rewrite_packet_to_local_proxy; Packet/Headers: what RFC 791 and 8200 say
--                        that the bytes of a packet are.
--   Capture/Redirect     WfpRedirectController over LocalCalloutBridge.
--   Capture/Wfp, Divert  src/capture/wfp_capture.cpp, and the start and loop of WinDivertCapture.
--   Proxy, Application   src/proxy/proxy_server.cpp and src/app/application.cpp.
--   Tests/*              concrete inputs and the theorems at them.
-- A file in a folder named for another one, such as Transport/Pump/Conserve, has theorems about it.
--
-- How state is modelled. An object is a record of its fields, and an operation returns the new one
-- beside its result. A std::string is the list of its bytes as natural numbers, and an
-- unordered_map an association list. An exception or an error return is a constructor of the
-- operation's result. std::size_t has 64 bits, unsigned long 32 as on Windows, and where the code's
-- arithmetic can wrap round the remainder is written out. The character classes are those of the C
-- locale.
--
-- Fuel. `replace_all` has one unit more than the bytes of its text, and each round consumes a
-- byte of it when the pattern is not empty. The two loops over a ClientHello have one unit more than
-- its bytes, and each round steps over at least three of them. The pump's `run` counts rounds,
-- since the loop of the code has no bound. `write_loop` has one unit more than the
-- bytes it writes, and each round that goes on writes at least one. `attempt_loop` counts the 30
-- attempts of the code.
--
-- Parameters. The results of recv are a list of events, those of send_all a function of what was
-- sent before; the clock of the flow table is an argument in milliseconds. What InetNtopA writes and
-- getaddrinfo finds are parameters, and so are std::system, which can change the files in any way,
-- the joining of paths, and the checksum helper of WinDivert. What else the system answers (a new
-- socket, whether a call succeeds, an exit code, a datagram that arrives) stands in a record of
-- answers or in the turns of a run, so that each failure is a case of the model. Protocol adapters
-- are a data type with the one kind that the program has.
--
-- Not modelled: threads, but for the two of a connection, whose rounds are interleaved in any order
-- (the connections of a server are handled one after the other, and under a mutex each operation is
-- one step, as are the end of a pump and the shutdown of the sockets behind it; the threads of an
-- intercepted session close a standard input before `stop` or behind it, not within); socket
-- options and timeouts; the OpenSSL program and the two drivers, whose answers are arguments; the
-- texts of log lines and the reading of files from the disk.
pub mod Application
pub mod Capture
pub mod Common
pub mod Config
pub mod Http
pub mod Logging
pub mod Patch
pub mod Prelude
pub mod Protocol
pub mod Proxy
pub mod Rules
pub mod Tls
pub mod Transport
mod Tests
