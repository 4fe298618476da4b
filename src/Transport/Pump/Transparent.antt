-- ===== src/Transport/Pump/Transparent.antt =====
-- A proxy that is told to change nothing forwards the stream as it is.
use network_proxy.Prelude.{Bool-cases, Bytes, ℕ, ◌≡◌, fun_ext, inl, inr, Bool, List}
use network_proxy.Protocol.Detector.{ProtocolKind}
use network_proxy.Protocol.Manager.Idle.{IsIdle, transport-idle, patch_payload-idle, plaintext-idle}
use network_proxy.Transport.Pump.{Session, patch_chunk, Event, Pump, run}
use network_proxy.Transport.Pump.Conserve.{stream, pass, run-conserves}

patch_chunk-idle :
    (s : Session) (kind : ProtocolKind) (payload : Bytes)
    → IsIdle s.manager.patch_engine
    → IsIdle s.engine
    → patch_chunk s kind payload ≡ payload
unfolding patch_chunk
patch_chunk-idle s kind payload im ie = elim (Bool-cases s.force_https_plaintext_patch) [
  | inl b ↦ rw (patch_chunk, b) (plaintext-idle s.manager s.engine payload s.direction im ie)
  | inr b ↦ rw (
    patch_chunk,
    b,
    patch_payload-idle s.manager _ payload im,
    transport-idle s.engine ie payload _ _ _,
  )
]

pub patch_chunk-pass :
    (s : Session) → IsIdle s.manager.patch_engine → IsIdle s.engine → patch_chunk s ≡ pass
patch_chunk-pass s im ie = fun_ext λ kind. fun_ext λ payload. patch_chunk-idle s kind payload im ie

-- With no rules and every patch switched off, the whole path of a chunk through the detector, the
-- adapters and the engines, for HTTP, decrypted HTTPS or plain bytes, is transparent: in each
-- direction, what was sent, what is held and what is to come is the stream that there was.
pub run-transparent :
    (s : Session) (send : List Bytes → Bytes → Bool) (rounds : ℕ) (p : Pump) (events : List Event)
    → IsIdle s.manager.patch_engine
    → IsIdle s.engine
    → stream
        (run (patch_chunk s) send rounds p events).0
        (run (patch_chunk s) send rounds p events).1
      ≡ stream p events
run-transparent s send rounds p events im ie =
    rw (patch_chunk-pass s im ie) (run-conserves send rounds p events)
