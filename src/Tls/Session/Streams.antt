-- ===== src/Tls/Session/Streams.antt =====
-- src/tls/https_mitm_proxy.cpp: the four threads of a session: `relay_socket_stream`, which two of
-- them run, and the loops that patch the plaintext.
use network_proxy.Prelude.{
  option_map, length, take, All, Bytes, ℕ, suc, ◌≡◌, ◌⊎◌, Bool, true, false, Option, none, some,
  List, [], ◌∷◌, ◌++◌,
}
use network_proxy.Patch.Engine.{PatchEngine}
use network_proxy.Protocol.Manager.{ProtocolManager}
use network_proxy.Tls.Plaintext.{patch_https_plaintext_http}
use network_proxy.Tls.Process.{OpenSslProcess, write_stdin}
use network_proxy.Transport.Send.{write_loop}
use network_proxy.Transport.Send.Whole.{TakesOffered}

-- A round: whether `stop_requested` is set in front of it, what is read (`none` ends the loop), and
-- what the calls that write take.
pub record Turn : Type 0 where
  pub stopped : Bool
  pub read : Option Bytes
  pub answer : ℕ → ℕ → Option ℕ

-- The bytes that have gone out, and whether the loop is over: it can also wait for more.
module _ (change : Bytes → Bytes) (write : (ℕ → ℕ → Option ℕ) → Bytes → Option (Bytes × Bool)) where
  unfoldable pub relay_loop : List Turn → Bytes → Bytes × Bool
  relay_loop [] sent = (sent, false)
  relay_loop (turn ∷ turns) sent = elim turn.stopped [
    | true ↦ (sent, true)
    | false ↦ elim turn.read [
      | none ↦ (sent, true)
      | some payload ↦ elim (write turn.answer (change payload)) [
        | none ↦ (sent, true)
        | some (wire, ok) ↦ elim ok [
          | true ↦ relay_loop turns (sent ++ wire)
          | false ↦ (sent ++ wire, true)
        ]
      ]
    ]
  ]

-- The inner loop of `relay_socket_stream`.
unfoldable pub send_received : (ℕ → ℕ → Option ℕ) → Bytes → Option (Bytes × Bool)
unfolding write_loop
send_received answer payload =
    let n = length payload in
    option_map (λ r. (take r.0 payload, r.1)) (write_loop (λ left. left) answer n (suc n) 0)

abbrev pub relay_socket_stream : List Turn → Bytes → Bytes × Bool
relay_socket_stream = relay_loop (λ payload. payload) send_received

-- The loop of `outbound_plaintext_thread` and of `inbound_plaintext_thread`, on the process it writes to.
abbrev pub relay_plaintext :
    ProtocolManager → PatchEngine → Bytes → OpenSslProcess → List Turn → Bytes → Bytes × Bool
relay_plaintext manager engine direction target =
    relay_loop (λ payload. (patch_https_plaintext_http manager engine payload direction).0)
      (λ answer. write_stdin answer target)

-- What is read in all the rounds.
abbrev pub heard : List Turn → Bytes
heard [] = []
heard (turn ∷ turns) = elim turn.read [ none ↦ [] | some payload ↦ payload ] ++ heard turns

-- What a write gives: a beginning of its payload, and the whole where it succeeds.
abbrev WritesFront : ((ℕ → ℕ → Option ℕ) → Bytes → Option (Bytes × Bool)) → Type 0
WritesFront write =
    (answer : ℕ → ℕ → Option ℕ) (payload : Bytes)
    → TakesOffered answer
    → (wire : Bytes) × (ok : Bool) × (rest : Bytes) × (write answer payload ≡ some (wire, ok))
      × (payload ≡ wire ++ rest)
      × (ok ≡ true → rest ≡ [])

abbrev pub AllTake : List Turn → Type 0
AllTake turns = All (λ (t : Turn). TakesOffered t.answer) turns

-- What has gone out is a beginning of `stream`, and all of it while the loop goes on.
abbrev pub Passes : Bytes → Bytes × Bool → Type 0
Passes stream r = (rest : Bytes) × (stream ≡ r.0 ++ rest) × ((r.1 ≡ true) ⊎ (rest ≡ []))
