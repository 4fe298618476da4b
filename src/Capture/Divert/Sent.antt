-- ===== src/Capture/Divert/Sent.antt =====
-- Every packet that the capture takes goes on.
use network_proxy.Prelude.{
  Bool-cases, Option-cases, length, Bytes, ℕ, ◌≡◌, ◌∙◌, inl, inr, true, false, not, ◌||◌, Option,
  none, some, List, [], ◌∷◌, ◌++◌, map, append_assoc, append-nil, arith,
}
use network_proxy.Capture.Packet.{redirect_of, rewrite_packet_to_local_proxy}
use network_proxy.Capture.Packet.Once.{redirect_of-once}
use network_proxy.Capture.Divert.{
  WinDivertCapture, Turn, Relay, outgoing, relay_packet, run_loop, run,
}

-- The packets that are received.
abbrev pub packets : List Turn → List Bytes
packets [] = []
packets (turn ∷ turns) =
    let rest = packets turns in elim turn.received [ none ↦ rest | some packet ↦ packet ∷ rest ]

module _ (inet_ntop4 : ℕ → Option Bytes) (inet_ntop6 : Bytes → Option Bytes)
    (calc_checksums : Bytes → Bytes) (c : WinDivertCapture) where
  -- What goes on in a packet's place, whatever came before it.
  unfoldable pub fate : Bytes → Bytes
  fate packet = elim (redirect_of inet_ntop4 inet_ntop6 c.config packet) [
    | none ↦ packet
    | some r ↦ outgoing inet_ntop4 inet_ntop6 calc_checksums c r.packet true
  ]

  sent-relay_packet :
      (turn : Turn) (packet : Bytes) (r : Relay)
      → (relay_packet inet_ntop4 inet_ntop6 calc_checksums c turn packet r).sent
        ≡ r.sent ++ (fate packet ∷ [])
  unfolding relay_packet rewrite_packet_to_local_proxy fate
  sent-relay_packet turn packet r =
      elim (Option-cases (redirect_of inet_ntop4 inet_ntop6 c.config packet)) [
        | inl e ↦ rw (relay_packet, rewrite_packet_to_local_proxy, fate, e)
        | inr (s, e) ↦ rw (relay_packet, rewrite_packet_to_local_proxy, fate, e)
      ]

  sent-run_loop :
      (turns : List Turn) (r : Relay)
      → (run_loop inet_ntop4 inet_ntop6 calc_checksums c turns r).sent
        ≡ r.sent ++ map fate (packets turns)
  unfolding run_loop
  sent-run_loop [] r = rw (append-nil r.sent)
  sent-run_loop (turn ∷ turns) r = elim (Option-cases turn.received) [
    | inl e ↦ rw (run_loop, e) (sent-run_loop turns r)
    | inr (packet, e) ↦
        rw (run_loop, e)
          (rw
            (sent-run_loop turns
              (relay_packet inet_ntop4 inet_ntop6 calc_checksums c turn packet r))
            (rw (sent-relay_packet turn packet r) (simp append_assoc)))
  ]

  length-fate :
      (packet : Bytes)
      → ((p : Bytes) → length (calc_checksums p) ≡ length p)
      → length (fate packet) ≡ length packet
  unfolding fate
  length-fate packet keeps =
      elim (Option-cases (redirect_of inet_ntop4 inet_ntop6 c.config packet)) [
        | inl e ↦ rw (fate, e)
        | inr (r, e) ↦
            let (l, _) = redirect_of-once inet_ntop4 inet_ntop6 c.config packet r e in
            elim (Bool-cases c.functions.windivert_calc_checksums) [
              | inl b ↦ rw (fate, e, b) (keeps r.packet ∙ l)
              | inr b ↦ rw (fate, e, b) l
            ]
      ]

-- Once the driver is open, every packet that is received is sent on exactly once, in order, whatever
-- sends have failed before it: as it came, or redirected where it is to be, which does not depend
-- on the packets before it; where the checksum helper keeps lengths, with the length that it had.
pub run-relays :
    (inet_ntop4 : ℕ → Option Bytes) (inet_ntop6 : Bytes → Option Bytes)
    (calc_checksums : Bytes → Bytes) (c : WinDivertCapture) (turns : List Turn) (r : Relay)
    (packet : Bytes)
    → c.config.capture_enabled ≡ true
    → c.config.use_windivert ≡ true
    → c.divert_handle ≡ true
    → ((p : Bytes) → length (calc_checksums p) ≡ length p)
    → ((run inet_ntop4 inet_ntop6 calc_checksums c turns r).sent
        ≡ r.sent ++ map (fate inet_ntop4 inet_ntop6 calc_checksums c) (packets turns))
      × (length (fate inet_ntop4 inet_ntop6 calc_checksums c packet) ≡ length packet)
unfolding run
run-relays inet_ntop4 inet_ntop6 calc_checksums c turns r packet h w d keeps =
    let b : (not c.config.capture_enabled || (not c.config.use_windivert || not c.divert_handle))
        ≡ false =
      ground (arith, h, w, d) in
    (
      rw (run, b) (sent-run_loop inet_ntop4 inet_ntop6 calc_checksums c turns r),
      length-fate inet_ntop4 inet_ntop6 calc_checksums c packet keeps,
    )
