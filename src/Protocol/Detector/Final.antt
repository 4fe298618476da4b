-- ===== src/Protocol/Detector/Final.antt =====
-- A decision of the detector does not depend on bytes that are still to come.
use network_proxy.Prelude.{
  ◌==◌, if◌then◌else◌, ==_iff, &&-true, is_empty, Bytes, codes, starts_with, ◌≡◌, refl, ◌∙◌, ◌≢◌,
  Bool, true, false, ◌||◌, List, [], ◌∷◌, ◌++◌, arith,
}
use network_proxy.Protocol.Detector.{
  ProtocolKind, unknown, http, https, k_http_request_methods, starts_with_any, is_tls,
  detect_protocol_kind,
}

starts_with-grows : (s more p : Bytes) → starts_with s p ≡ true → starts_with (s ++ more) p ≡ true
starts_with-grows s more [] h = refl
starts_with-grows [] more (d ∷ p) h = absurd (cc)
starts_with-grows (c ∷ s) more (d ∷ p) h =
    let (e, f) = &&-true (c == d) (starts_with s p) h in rw (e, starts_with-grows s more p f)

||-grows :
    (a b a' b' : Bool)
    → (a ≡ true → a' ≡ true)
    → (b ≡ true → b' ≡ true)
    → (a || b) ≡ true
    → (a' || b') ≡ true
||-grows true b a' b' f g h = rw (f refl)
||-grows false b a' b' f g h = ground (arith, g h)

any-grows :
    (s more : Bytes) (ps : List Bytes)
    → starts_with_any s ps ≡ true
    → starts_with_any (s ++ more) ps ≡ true
unfolding starts_with_any
any-grows s more [] h = h
any-grows s more (p ∷ ps) h = ||-grows _ _ _ _ (starts_with-grows s more p) (any-grows s more ps) h

-- The opening of a response.
is_response : Bytes → Bool
is_response s = starts_with s (codes "HTTP/1.0 ") || starts_with s (codes "HTTP/1.1 ")

response-grows : (s more : Bytes) → is_response s ≡ true → is_response (s ++ more) ≡ true
unfolding is_response
response-grows s more h =
    ||-grows _ _ _ _ (starts_with-grows s more (codes "HTTP/1.0 "))
      (starts_with-grows s more (codes "HTTP/1.1 ")) h

kind_of : Bool → Bool → Bool → Bool → ProtocolKind
kind_of empty request response tls =
    if empty
    then unknown
    else if request
    then http
    else if response
    then http
    else if tls
    then https
    else unknown

detect-kind_of :
    (s : Bytes)
    → detect_protocol_kind s
      ≡ kind_of (is_empty s) (starts_with_any s k_http_request_methods) (is_response s) (is_tls s)
unfolding detect_protocol_kind kind_of is_response
detect-kind_of s = refl

-- The first byte of a TLS record begins no HTTP message.
tls-not-http :
    (s : Bytes)
    → is_tls s ≡ true
    → (starts_with_any s k_http_request_methods ≡ false) × (is_response s ≡ false)
unfolding starts_with_any is_response
tls-not-http (a ∷ b ∷ c ∷ s) h =
    let e = (==_iff a 0x16).0 (&&-true (a == 0x16) (b == 0x03) h).0 in rw e (refl, refl)
tls-not-http [] h = absurd cc
tls-not-http (a ∷ []) h = absurd cc
tls-not-http (a ∷ b ∷ []) h = absurd cc

tls-grows : (s more : Bytes) → is_tls s ≡ true → is_tls (s ++ more) ≡ true
tls-grows (a ∷ b ∷ c ∷ s) more h = h
tls-grows [] more h = absurd cc
tls-grows (a ∷ []) more h = absurd cc
tls-grows (a ∷ b ∷ []) more h = absurd cc

-- What the growing of a payload does to the tests.
kind_of-grows :
    (a b b' c c' d d' : Bool)
    → (b ≡ true → b' ≡ true)
    → (c ≡ true → c' ≡ true)
    → (d ≡ true → d' ≡ true)
    → (d' ≡ true → (b' ≡ false) × (c' ≡ false))
    → kind_of a b c d ≢ unknown
    → kind_of false b' c' d' ≡ kind_of a b c d
unfolding kind_of
kind_of-grows a b b' c c' d d' f g k x h = ground (arith, f, g, k, x)

-- Once a payload is recognised, it is recognised as the same however it goes on: the pump need not
-- ask again.
pub detect-append :
    (payload more : Bytes)
    → detect_protocol_kind payload ≢ unknown
    → detect_protocol_kind (payload ++ more) ≡ detect_protocol_kind payload
detect-append [] more h = absurd (h (unfold detect_protocol_kind in refl))
detect-append (c ∷ s) more h =
    rw (detect-kind_of (c ∷ s ++ more), detect-kind_of (c ∷ s))
      (kind_of-grows false _ _ _ _ _ _ (any-grows (c ∷ s) more k_http_request_methods)
        (response-grows (c ∷ s) more) (tls-grows (c ∷ s) more) (tls-not-http (c ∷ s ++ more))
        (λ e. h (detect-kind_of (c ∷ s) ∙ e)))
