-- ===== src/Tls/Session.antt =====
-- src/tls/https_mitm_proxy.cpp: `run_tls_mitm_session` and what it calls, with the handles of its two
-- child processes and the sockets. What the system answers is one record.
pub mod Releases
pub mod Streams
use network_proxy.Prelude.{
  ◌==◌, if◌then◌else◌, is_some, is_empty, Bytes, codes, to_string, ℕ, zero, suc, Bool, true, false,
  not, ◌||◌, Option, none, some, List, [], ◌∷◌, ◌++◌,
}
use network_proxy.Common.Handles.{close_socket_if_valid, open_socket}
use network_proxy.Config.Types.{AppConfig}
use network_proxy.Tls.Certificate.{
  Files, quoted, leaf_path, validate_ca_files, ensure_leaf_certificate_for_host,
}
use network_proxy.Tls.Certificate
use network_proxy.Tls.Process.{OpenSslProcess, new_process, Started, close_stdin, stop, start}
use network_proxy.Tls.Process

-- `initialize`: the result. `makes_directory` says whether the cache directory could be made.
unfoldable pub initialize : (Bytes → Bool) → AppConfig → Files → Bool
initialize makes_directory config files =
    if not config.https_mitm_enabled
    then true
    else if is_empty config.https_ca_cert_path || is_empty config.https_ca_key_path
    then false
    else if is_some (validate_ca_files config.https_ca_cert_path config.https_ca_key_path files)
    then false
    else makes_directory config.https_cert_cache_dir

-- The answers to `allocate_local_port`: of `socket`, `bind` and `getsockname`, which gives a port.
pub record Probe : Type 0 where
  pub probe_socket : Option ℕ
  pub binds : Bool
  pub allocated_port : Option ℕ

unfoldable pub allocate_local_port : Probe → List ℕ → ℕ × List ℕ
allocate_local_port answers sockets = elim answers.probe_socket [
  | none ↦ (0, sockets)
  | some probe_socket ↦
      let closed =
        close_socket_if_valid (some probe_socket) (open_socket (some probe_socket) sockets) in
      if not answers.binds
      then (0, closed)
      else elim answers.allocated_port [ none ↦ (0, closed) | some port ↦ (port, closed) ]
]

-- The attempts that are left, and what `connect` says to each.
unfoldable pub attempt_loop : ℕ → (ℕ → Bool) → Bool
attempt_loop zero connects = false
attempt_loop (suc left) connects =
    let rest = attempt_loop left connects in if connects left then true else rest

unfoldable pub connect_local_port : Option ℕ → (ℕ → Bool) → List ℕ → Option ℕ × List ℕ
unfolding attempt_loop
connect_local_port answer connects sockets = elim answer [
  | none ↦ (none, sockets)
  | some socket_handle ↦
      let opened = open_socket (some socket_handle) sockets in
      if attempt_loop 30 connects
      then (some socket_handle, opened)
      else (none, close_socket_if_valid (some socket_handle) opened)
]

-- `exit_code` is what `GetExitCodeProcess` says in the course of the session; the two last fields say
-- whether a thread closes the standard input of its target before the session stops the process.
pub record Answers : Type 0 where
  pub probe : Probe
  pub server_started : Started
  pub bridge_socket : Option ℕ
  pub connects : ℕ → Bool
  pub client_started : Started
  pub exit_code : ℕ → Option ℕ
  pub outbound_ends_first : Bool
  pub inbound_ends_first : Bool

-- What the session changes, and the command lines that it starts.
pub record World : Type 0 where
  pub certificates : Certificate.System
  pub handles : Process.System
  pub sockets : List ℕ
  pub commands : List Bytes

abbrev pub server_command : AppConfig → ℕ → Bytes → Bytes → Bytes
server_command config local_tls_port leaf_cert_path leaf_key_path =
    quoted config.openssl_bin_path
    ++ (codes " s_server -quiet -accept "
        ++ (to_string local_tls_port
            ++ (codes " -cert "
                ++ (quoted leaf_cert_path
                    ++ (codes " -key "
                        ++ (quoted leaf_key_path ++ codes " -servername 127.0.0.1"))))))

abbrev pub client_command : AppConfig → Bytes → ℕ → Bytes
client_command config upstream_host upstream_port =
    quoted config.openssl_bin_path
    ++ (codes " s_client -quiet -connect "
        ++ (upstream_host
            ++ (codes ":"
                ++ (to_string upstream_port ++ (codes " -servername " ++ upstream_host)))))

abbrev pub close_stdin_if : Bool → OpenSslProcess → Process.System → OpenSslProcess × Process.System
close_stdin_if true p s = close_stdin p s
close_stdin_if false p s = (p, s)

module _ (answers : Answers) where
  -- `stop` on one process and then on the other.
  unfoldable pub stop_both :
      OpenSslProcess
      → OpenSslProcess
      → Process.System
      → OpenSslProcess × OpenSslProcess × Process.System
  stop_both p q s =
      let (p', s') = stop answers.exit_code p s in
      let (q', s'') = stop answers.exit_code q s' in (p', q', s'')

  -- From the end of the waiting loop on: the processes are stopped, the threads end, and the
  -- destructors stop them once more, the client's first.
  unfoldable pub end_session : OpenSslProcess → OpenSslProcess → Process.System → Process.System
  unfolding stop_both
  end_session tls_server tls_client s =
      let (q₁, s₁) = close_stdin_if answers.outbound_ends_first tls_client s in
      let (p₁, s₂) = close_stdin_if answers.inbound_ends_first tls_server s₁ in
      let (p₂, q₂, s₃) = stop_both p₁ q₁ s₂ in
      let (p₃, s₄) = close_stdin_if (not answers.inbound_ends_first) p₂ s₃ in
      let (q₃, s₅) = close_stdin_if (not answers.outbound_ends_first) q₂ s₄ in
      (stop_both q₃ p₃ s₅).2

  -- From the start of the client process on, with the bridge socket.
  unfoldable pub with_client : AppConfig → Bytes → ℕ → OpenSslProcess → ℕ → World → World × Bool
  unfolding end_session
  with_client config upstream_host upstream_port tls_server bridge w =
      let (q, s, ok) = start answers.exit_code answers.client_started new_process w.handles in
      let w' : World = record w {
        sockets = close_socket_if_valid (some bridge) w.sockets;
        commands = w.commands ++ client_command config upstream_host upstream_port ∷ [];
      } in
      let (p', s') = stop answers.exit_code tls_server s in
      if not ok
      then (record w' { handles = (stop_both q p' s').2 }, false)
      else (record w' { handles = end_session tls_server q s }, true)

  -- From the result of `connect_local_port` on.
  unfoldable pub with_bridge :
      AppConfig → Bytes → ℕ → OpenSslProcess → Option ℕ × List ℕ → World → World × Bool
  unfolding with_client
  with_bridge config upstream_host upstream_port tls_server (none, sockets) w =
      let (p, s) = stop answers.exit_code tls_server w.handles in
      (record w { handles = (stop answers.exit_code p s).1; sockets = sockets }, false)
  with_bridge config upstream_host upstream_port tls_server (some bridge_socket, sockets) w =
      with_client config upstream_host upstream_port tls_server bridge_socket
        (record w { sockets = sockets })

  -- From the start of the server process on.
  unfoldable pub with_server : AppConfig → Bytes → ℕ → Bytes → World → World × Bool
  unfolding with_bridge
  with_server config upstream_host upstream_port command w =
      let (p, s, ok) = start answers.exit_code answers.server_started new_process w.handles in
      let w' : World = record w { commands = w.commands ++ command ∷ [] } in
      if not ok
      then (record w' { handles = (stop answers.exit_code p s).1 }, false)
      else with_bridge config upstream_host upstream_port p
          (connect_local_port answers.bridge_socket answers.connects w.sockets)
          (record w' { handles = s })

module _ (system : Bytes → Files → Bool × Files) (join : Bytes → Bytes → Bytes)
    (makes_directory opens : Bytes → Bool) where
  unfoldable pub run_tls_mitm_session : AppConfig → Answers → Bytes → ℕ → World → World × Bool
  unfolding with_server allocate_local_port
  run_tls_mitm_session config answers upstream_host upstream_port w =
      let (certificates, error) =
        ensure_leaf_certificate_for_host system join makes_directory opens config upstream_host
          w.certificates in
      let (local_tls_port, sockets) = allocate_local_port answers.probe w.sockets in
      let w₁ : World = record w { certificates = certificates } in
      let w₂ : World = record w₁ { sockets = sockets } in
      elim error [
        | some e ↦ (w₁, false)
        | none ↦
            if local_tls_port == 0
            then (w₂, false)
            else with_server answers config upstream_host upstream_port
                (server_command config local_tls_port
                  (leaf_path join config.https_cert_cache_dir upstream_host (codes ".crt"))
                  (leaf_path join config.https_cert_cache_dir upstream_host (codes ".key")))
                w₂
      ]
