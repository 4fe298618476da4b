-- ===== src/Tls/Plaintext.antt =====
-- src/tls/https_mitm_proxy.cpp: `patch_https_plaintext_http`.
use network_proxy.Prelude.{if◌then◌else◌, Bytes, codes, Bool, not, ◌&&◌, none, []}
use network_proxy.Protocol.Detector.{unknown, detect_protocol_kind}
use network_proxy.Protocol.Message.{ProtocolContext}
use network_proxy.Protocol.Adapter.{is_http}
use network_proxy.Protocol.Manager.{ProtocolManager, patch_payload}
use network_proxy.Patch.Engine.{PatchEngine, apply_transport_patch}

-- `ProtocolContext context;`
abbrev pub empty_protocol_context : ProtocolContext
empty_protocol_context = record {
  protocol_kind = unknown;
  direction = [];
  host = [];
  method = [];
  path = [];
  remote_port = 0;
  process_name = [];
}

unfoldable pub patch_https_plaintext_http :
    ProtocolManager → PatchEngine → Bytes → Bytes → Bytes × Bool
patch_https_plaintext_http m e plaintext_payload direction =
    let kind = detect_protocol_kind plaintext_payload in
    let (payload, handled) =
      patch_payload m plaintext_payload
        (record empty_protocol_context { direction = direction; protocol_kind = kind }) in
    if not handled && is_http kind
    then apply_transport_patch e payload (codes "https-http") direction none
    else (payload, handled)
