-- ===== src/Tests/Starts.antt =====
-- Systems on which the theorems about certificates and intercepted sessions are applied.
use network_proxy.Prelude.{
  ◌==◌, Bytes, codes, ℕ, ◌≡◌, refl, ◌⊎◌, Bool, true, false, ◌&&◌, Option, none, some, List, [], ◌∷◌,
  ◌++◌,
}
use network_proxy.Common.Handles.{count}
use network_proxy.Config.Types.{AppConfig, default_config}
use network_proxy.Patch.Engine.{PatchEngine}
use network_proxy.Protocol.Manager.{ProtocolManager, http_protocol_adapter}
use network_proxy.Tls.Certificate.{
  Files, exists, remove_file, System, CertificateError, validate_ca_files, sanitize, make_leaf,
  leaf_path, execute_command, finish, generate_leaf_certificate,
}
use network_proxy.Tls.Certificate.Leaf.{generate_leaf-exists}
use network_proxy.Tls.Certificate.Commands.{generate_leaf-runs}
use network_proxy.Tls.Process.{OpenSslProcess, new_process}
use network_proxy.Tls.Session.{World, run_tls_mitm_session}
use network_proxy.Tls.Session
use network_proxy.Tls.Session.Releases.{run_tls_mitm_session-releases}
use network_proxy.Tls.Session.Streams.{Turn}

abbrev join : Bytes → Bytes → Bytes
join directory name = directory ++ (codes "/" ++ name)

abbrev always : Bytes → Bool
always path = true

-- The commands succeed, and the leaf's two files are there behind them.
abbrev makes_leaf : Bytes → Files → Bool × Files
makes_leaf command files = (true, (codes "d/h.crt", []) ∷ (codes "d/h.key", []) ∷ files)

abbrev with_ca : System
with_ca = record { files = (codes "c", []) ∷ (codes "k", []) ∷ []; commands = [] }

abbrev made : System × Option CertificateError
made =
    generate_leaf_certificate makes_leaf join always always (codes "h") (codes "c") (codes "k")
      (codes "d") (codes "o") with_ca

made-none : made ≡ (made.0, none)
unfolding generate_leaf_certificate validate_ca_files exists remove_file make_leaf execute_command
    finish sanitize
made-none = refl

generate_leaf-exists_example :
    (exists (codes "d/h.crt") made.0.files ≡ true)
    × (exists (codes "d/h.key") made.0.files ≡ true)
    × (((exists (codes "d/h.crt") with_ca.files && exists (codes "d/h.key") with_ca.files) ≡ false)
        ⊎ (made.0 ≡ with_ca))
unfolding sanitize
generate_leaf-exists_example =
    generate_leaf-exists makes_leaf join always always (codes "h") (codes "c") (codes "k")
      (codes "d") (codes "o") with_ca made.0 made-none

-- A host that closes the quotation.
abbrev hostile : Bytes
hostile = codes "h\" & calc & \""

hostile-valid : validate_ca_files (codes "c") (codes "k") with_ca.files ≡ none
unfolding validate_ca_files exists
hostile-valid = refl

hostile-absent :
    (exists (leaf_path join (codes "d") hostile (codes ".crt")) with_ca.files
      && exists (leaf_path join (codes "d") hostile (codes ".key")) with_ca.files)
    ≡ false
unfolding exists sanitize
hostile-absent = refl

generate_leaf-runs_example :
    (before : Bytes) × (after : Bytes) × (more : List Bytes) × ((generate_leaf_certificate
        makes_leaf join always always hostile
        (codes "c")
        (codes "k")
        (codes "d")
        (codes "o")
        with_ca).0.commands
      ≡ (before ++ (codes "\"/CN=" ++ (codes "h\" & calc & \"" ++ (codes "\"" ++ after)))) ∷ more)
generate_leaf-runs_example =
    generate_leaf-runs makes_leaf join always always hostile (codes "c") (codes "k") (codes "d")
      (codes "o") with_ca (λ e. absurd (cc e)) hostile-valid refl hostile-absent refl

abbrev secured : AppConfig
secured = record default_config {
  https_mitm_enabled = true;
  https_ca_cert_path = codes "c";
  https_ca_key_path = codes "k";
  https_cert_cache_dir = codes "d";
  openssl_bin_path = codes "o";
}

abbrev session_answers : Session.Answers
session_answers = record {
  probe = record { probe_socket = some 20; binds = true; allocated_port = some 50000 };
  server_started = record {
    stdout_pipe = some (1, 2);
    stdin_pipe = some (3, 4);
    process = some (5, 6);
  };
  bridge_socket = some 21;
  connects = λ left. left == 0;
  client_started = record {
    stdout_pipe = some (11, 12);
    stdin_pipe = some (13, 14);
    process = some (15, 16);
  };
  exit_code = λ handle. some 259;
  outbound_ends_first = true;
  inbound_ends_first = false;
}

abbrev world : World
world = record {
  certificates = with_ca;
  handles = record { opened = 5 ∷ []; terminated = [] };
  sockets = 7 ∷ [];
  commands = [];
}

run_tls_mitm_session-releases_example :
    (count 5
        (run_tls_mitm_session makes_leaf join always always secured session_answers
          (codes "h")
          443
          world).0.handles.opened
      ≡ count 5 (5 ∷ []))
    × (count 5
          (run_tls_mitm_session makes_leaf join always always secured session_answers
            (codes "h")
            443
            world).0.sockets
        ≡ count 5 (7 ∷ []))
run_tls_mitm_session-releases_example =
    run_tls_mitm_session-releases 5 makes_leaf join always always secured session_answers
      (codes "h") 443 world

abbrev idle_engine : PatchEngine
idle_engine = record {
  config = record default_config {
    add_proxy_header = false;
    append_debug_suffix = false;
    enable_text_patch = false;
  };
  rules = none;
}

abbrev manager : ProtocolManager
manager = record {
  config = default_config;
  patch_engine = idle_engine;
  adapters = http_protocol_adapter ∷ [];
}

abbrev target : OpenSslProcess
target = record new_process { stdin_write_handle = some 4 }

abbrev all_of_it : ℕ → ℕ → Option ℕ
all_of_it offset offered = some offered

abbrev plain_turns : List Turn
plain_turns =
    record { stopped = false; read = some (codes "GET /"); answer = all_of_it }
    ∷ record { stopped = false; read = some (codes " HTTP/1.1"); answer = all_of_it }
    ∷ []
