-- ===== src/Capture/Packet/Once.antt =====
-- A packet that the capture has redirected is not redirected again.
use network_proxy.Prelude.{
  ltb, leb, ◌==◌, if◌then◌else◌, Option-cases, OnSome, OnSome-if, OnSome-map, OnSome-some, length,
  get_or, Bytes, substr, ℕ, ◌+◌, ◌/◌, ◌%◌, ◌≤◌, ◌≡◌, inl, inr, Bool, true, false, Option, none,
  some, [], ◌∷◌, arith,
}
use network_proxy.Config.Types.{AppConfig}
use network_proxy.Capture.FlowTable.{FlowKey, Table, same_key}
use network_proxy.Capture.FlowTable.Unique.{IsUnique}
use network_proxy.Capture.FlowTable.View.{lookup, lookup-remember}
use network_proxy.Capture.Packet.{
  Redirect, rewrite_v4, rewrite_v6, redirect_of, rewrite_packet_to_local_proxy,
}
use network_proxy.Capture.Packet.Headers.{
  are_bytes, flow_of, destination_of, Says, redirect_of-Says,
}
use network_proxy.Capture.Packet.Marks.{
  Marks, Marks6, rewrite_v4-Marks, rewrite_v4-again, rewrite_v6-Marks, rewrite_v6-again,
}

dispatch-none :
    {A : Type 0} (b v w : Bool) (x y : Option A)
    → (v ≡ true → x ≡ none)
    → (v ≡ false → y ≡ none)
    → (if b then none else if v then x else if w then y else none) ≡ none
dispatch-none b v w x y f g = ground (arith, f, g)

module _ (inet_ntop4 : ℕ → Option Bytes) (inet_ntop6 : Bytes → Option Bytes) where
  redirect_of-none :
      (config : AppConfig) (q : Bytes)
      → ((get_or q 0 0 / 16 % 16 == 4) ≡ true → rewrite_v4 inet_ntop4 inet_ntop6 config q ≡ none)
      → ((get_or q 0 0 / 16 % 16 == 4) ≡ false → rewrite_v6 inet_ntop4 inet_ntop6 config q ≡ none)
      → redirect_of inet_ntop4 inet_ntop6 config q ≡ none
  unfolding redirect_of
  redirect_of-none config q f g =
      dispatch-none (ltb (length q) 1) (get_or q 0 0 / 16 % 16 == 4) (get_or q 0 0 / 16 % 16 == 6)
        (rewrite_v4 inet_ntop4 inet_ntop6 config q) (rewrite_v6 inet_ntop4 inet_ntop6 config q) f g

  -- The packet has its length still, and is left alone from now on.
  Settled : AppConfig → Bytes → Redirect → Type 0
  Settled config p r =
      (length r.packet ≡ length p) × (redirect_of inet_ntop4 inet_ntop6 config r.packet ≡ none)

  redirect_of-Settled :
      (config : AppConfig) (p : Bytes)
      → OnSome (Settled config p) (redirect_of inet_ntop4 inet_ntop6 config p)
  unfolding redirect_of Settled Marks Marks6
  redirect_of-Settled config p =
      OnSome-if _ (ltb (length p) 1) _ _ (λ _. tt)
        λ _.
          OnSome-if _ (get_or p 0 0 / 16 % 16 == 4) _ _
            (λ v.
              OnSome-map (λ s. Marks inet_ntop4 inet_ntop6 p s.packet) _ _
                (rewrite_v4-Marks inet_ntop4 inet_ntop6 config p)
                λ r (n, f, a, _). (
                  n,
                  redirect_of-none config r.packet
                      (λ _. rewrite_v4-again inet_ntop4 inet_ntop6 config r.packet a)
                      (λ v'. absurd (cc (rw (f, v) at v'))),
                ))
            (λ v.
              OnSome-if _ (get_or p 0 0 / 16 % 16 == 6) _ _
                (λ w.
                  OnSome-map (λ s. Marks6 inet_ntop4 inet_ntop6 p s.packet) _ _
                    (rewrite_v6-Marks inet_ntop4 inet_ntop6 config p)
                    λ r (n, f, a). (
                      n,
                      redirect_of-none config r.packet (λ v'. absurd (cc (rw (f, v) at v')))
                          (λ _. rewrite_v6-again inet_ntop4 inet_ntop6 config r.packet a),
                    ))
                (λ _. tt))

-- A packet that is redirected keeps its length, and is not redirected again when it comes back,
-- under IPv4 and IPv6, for TCP and UDP.
pub redirect_of-once :
    (inet_ntop4 : ℕ → Option Bytes) (inet_ntop6 : Bytes → Option Bytes) (config : AppConfig)
    (p : Bytes) (r : Redirect)
    → redirect_of inet_ntop4 inet_ntop6 config p ≡ some r
    → (length r.packet ≡ length p) × (redirect_of inet_ntop4 inet_ntop6 config r.packet ≡ none)
unfolding Settled
redirect_of-once inet_ntop4 inet_ntop6 config p r e =
    OnSome-some (Settled inet_ntop4 inet_ntop6 config p) _ r
      (redirect_of-Settled inet_ntop4 inet_ntop6 config p) e

-- Under IPv4 a packet that is redirected is sent to 1.0.0.127, not to 127.0.0.1: `htonl` is applied
-- to a constant that is in network order already.
pub rewrite_v4-address :
    (inet_ntop4 : ℕ → Option Bytes) (inet_ntop6 : Bytes → Option Bytes) (config : AppConfig)
    (p : Bytes) (r : Redirect)
    → rewrite_v4 inet_ntop4 inet_ntop6 config p ≡ some r
    → substr r.packet 16 4 ≡ 1 ∷ 0 ∷ 0 ∷ 127 ∷ []
unfolding Marks
rewrite_v4-address inet_ntop4 inet_ntop6 config p r e =
    let (_, _, _, a) =
      OnSome-some (λ s. Marks inet_ntop4 inet_ntop6 p s.packet) _ r
        (rewrite_v4-Marks inet_ntop4 inet_ntop6 config p) e in
    a

redirect-lookup :
    (inet_ntop4 : ℕ → Option Bytes) (inet_ntop6 : Bytes → Option Bytes) (config : AppConfig)
    (now now' : ℕ) (p : Bytes) (t : Table) (r : Redirect) (j : FlowKey)
    → redirect_of inet_ntop4 inet_ntop6 config p ≡ some r
    → IsUnique t
    → now ≤ now'
    → now' ≤ now + 120000
    → lookup now' j (rewrite_packet_to_local_proxy inet_ntop4 inet_ntop6 config now p t).1 ≡ (
        if same_key r.key j then some (r.destination_host, r.destination_port) else lookup now' j t)
unfolding rewrite_packet_to_local_proxy
redirect-lookup inet_ntop4 inet_ntop6 config now now' p t r j e u h h' =
    let b : leb now' (now + 120000) ≡ true = ground arith in
    rw (rewrite_packet_to_local_proxy, e)
      (rw b at (lookup-remember now now' r.key j r.destination_host r.destination_port t u h))

-- For 120 seconds after a packet has been redirected, the flow table answers for the flow that its
-- headers name with the destination that they name, and for other flows as before.
pub rewrite-lookup :
    (inet_ntop4 : ℕ → Option Bytes) (inet_ntop6 : Bytes → Option Bytes) (config : AppConfig)
    (now now' : ℕ) (p : Bytes) (t : Table) (j : FlowKey)
    → are_bytes p ≡ true
    → (rewrite_packet_to_local_proxy inet_ntop4 inet_ntop6 config now p t).2 ≡ true
    → IsUnique t
    → now ≤ now'
    → now' ≤ now + 120000
    → lookup now' j (rewrite_packet_to_local_proxy inet_ntop4 inet_ntop6 config now p t).1 ≡ (
        if same_key (flow_of inet_ntop4 inet_ntop6 p) j
        then some (destination_of inet_ntop4 inet_ntop6 p)
        else lookup now' j t)
unfolding rewrite_packet_to_local_proxy
rewrite-lookup inet_ntop4 inet_ntop6 config now now' p t j b d u h h' =
    elim (Option-cases (redirect_of inet_ntop4 inet_ntop6 config p)) [
      | inl n ↦ absurd (cc (rw (rewrite_packet_to_local_proxy, n) at d))
      | inr (r, e) ↦
          let (k, a) =
            OnSome-some (Says inet_ntop4 inet_ntop6 p) _ r
              (redirect_of-Says inet_ntop4 inet_ntop6 p b config) e in
          rw (k, a) at (redirect-lookup inet_ntop4 inet_ntop6 config now now' p t r j e u h h')
    ]
