-- ===== src/Capture/Divert.antt =====
-- src/capture/win_divert_capture.cpp: `initialize`, `bind_functions` and the loop of `run`. What the
-- library's functions answer are arguments; the helper for checksums is a parameter.
pub mod Sent
use network_proxy.Prelude.{
  if◌then◌else◌, Bytes, ℕ, ◌+◌, ◌%◌, ◌^◌, Bool, true, false, not, ◌&&◌, ◌||◌, Option, none, some,
  List, [], ◌∷◌, ◌++◌,
}
use network_proxy.Config.Types.{AppConfig}
use network_proxy.Capture.FlowTable.{Table}
use network_proxy.Capture.Packet.{rewrite_packet_to_local_proxy}

-- Whether each of the five functions is found in the library.
pub record Functions : Type 0 where
  pub windivert_open : Bool
  pub windivert_close : Bool
  pub windivert_recv : Bool
  pub windivert_send : Bool
  pub windivert_calc_checksums : Bool

-- The members of the class; of the handles, whether they are there.
pub record WinDivertCapture : Type 0 where
  pub config : AppConfig
  pub module_handle : Bool
  pub functions : Functions
  pub divert_handle : Bool

abbrev pub no_functions : Functions
no_functions = record {
  windivert_open = false;
  windivert_close = false;
  windivert_recv = false;
  windivert_send = false;
  windivert_calc_checksums = false;
}

abbrev pub new_win_divert_capture : AppConfig → WinDivertCapture
new_win_divert_capture config = record {
  config = config;
  module_handle = false;
  functions = no_functions;
  divert_handle = false;
}

unfoldable pub bind_functions : Functions → WinDivertCapture → WinDivertCapture × Bool
bind_functions found c = if not c.module_handle then (c, false) else (
  record c { functions = found },
  found.windivert_open && (found.windivert_close && (found.windivert_recv && found.windivert_send)),
)

-- The library, where it loads, and whether the result of `WinDivertOpen` differs from `nullptr`, with
-- which the code compares it. The `INVALID_HANDLE_VALUE` that reports a failure differs from it.
unfoldable pub initialize : Option Functions → Bool → WinDivertCapture → WinDivertCapture × Bool
unfolding bind_functions
initialize library opens c =
    if not c.config.capture_enabled || not c.config.use_windivert then (c, true) else elim library [
      | none ↦ (c, false)
      | some found ↦
          let (c', bound) = bind_functions found (record c { module_handle = true }) in
          if not bound
          then (c', false)
          else if not opens
          then (c', false)
          else (record c' { divert_handle = true }, true)
    ]

-- `~WinDivertCapture`
unfoldable pub destroy : WinDivertCapture → WinDivertCapture
destroy c = record c {
  divert_handle = c.divert_handle && not c.functions.windivert_close;
  module_handle = false;
}

-- A round: the clock, what `WinDivertRecv` gives (`none` where it fails or gives no bytes), and
-- whether `WinDivertSend` succeeds.
pub record Turn : Type 0 where
  pub now : ℕ
  pub received : Option Bytes
  pub sends : Bool

-- The packets that `WinDivertSend` was called with, and the two counters, of 64 bits.
pub record Relay : Type 0 where
  pub flow_table : Table
  pub sent : List Bytes
  pub packet_count : ℕ
  pub redirected_count : ℕ

module _ (inet_ntop4 : ℕ → Option Bytes) (inet_ntop6 : Bytes → Option Bytes)
    (calc_checksums : Bytes → Bytes) (c : WinDivertCapture) where
  -- What is sent for a packet that has been looked at.
  abbrev pub outgoing : Bytes → Bool → Bytes
  outgoing packet rewritten =
      if rewritten && c.functions.windivert_calc_checksums then calc_checksums packet else packet

  unfoldable pub relay_packet : Turn → Bytes → Relay → Relay
  relay_packet turn packet r =
      let (packet', table, rewritten) =
        rewrite_packet_to_local_proxy inet_ntop4 inet_ntop6 c.config turn.now packet r.flow_table in
      record {
        flow_table = table;
        sent = r.sent ++ outgoing packet' rewritten ∷ [];
        packet_count = if turn.sends then (r.packet_count + 1) % 2 ^ 64 else r.packet_count;
        redirected_count =
            if rewritten then (r.redirected_count + 1) % 2 ^ 64 else r.redirected_count;
      }

  unfoldable pub run_loop : List Turn → Relay → Relay
  unfolding relay_packet
  run_loop [] r = r
  run_loop (turn ∷ turns) r = elim turn.received [
    | none ↦ run_loop turns r
    | some packet ↦ run_loop turns (relay_packet turn packet r)
  ]

  unfoldable pub run : List Turn → Relay → Relay
  unfolding run_loop
  run turns r =
      if not c.config.capture_enabled || (not c.config.use_windivert || not c.divert_handle)
      then r
      else run_loop turns r
