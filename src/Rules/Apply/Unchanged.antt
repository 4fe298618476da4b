-- ===== src/Rules/Apply/Unchanged.antt =====
-- Where an applier reports no change there is none.
use network_proxy.Rules.Apply.{
  replace_step, replace_if, hex_step, transport_action, transport_loop, apply_transport,
  needs_header, set_headers, Message, http_action, http_loop, apply_http_request,
  apply_http_response,
}
use network_proxy.Prelude.{
  ltb, if◌then◌else◌, Bool-cases, Option-cases, is_empty, Bytes, ℕ, ◌≡◌, refl, ◌∙◌, ◌⊎◌, inl, inr,
  Bool, true, false, ◌||◌, some, List, [], ◌∷◌, arith,
}
use network_proxy.Http.{HeaderMap, HttpRequest, HttpResponse, set_header}
use network_proxy.Rules.Hex.{decode_hex_string}
use network_proxy.Rules.Match.{matches}
use network_proxy.Rules.Replace.{replace_all}
use network_proxy.Rules.Replace.OnePass.{
  replace_all-substitute, replace_all-nil, occurrences, substitute, substitute-unchanged,
}
use network_proxy.Rules.Types.{RuleMatchContext, RuleAction, RuleDefinition}

-- From the state `a` to the state `b`: the flag is only ever raised, and is raised by every change.
abbrev Honest : {A : Type 0} → A × Bool → A × Bool → Type 0
Honest a b = b.1 ≡ false → (b.0 ≡ a.0) × (a.1 ≡ false)

Honest-refl : {A : Type 0} (a : A × Bool) → Honest a a
Honest-refl a h = (refl, h)

Honest-trans : {A : Type 0} (a b c : A × Bool) → Honest a b → Honest b c → Honest a c
Honest-trans a b c p q h = let (e, f) = q h in let (e', f') = p f in (e ∙ e', f')

raised : (changed : Bool) (n : ℕ) → (changed || ltb 0 n) ≡ false → (n ≡ 0) × (changed ≡ false)
raised changed n h = ground arith

replace_all-total :
    (s p r : Bytes) → (t : Bytes) × (n : ℕ) × (replace_all s p r ≡ some (t, n)) × (n ≡ 0 → t ≡ s)
replace_all-total s [] r = (s, 0, replace_all-nil s r, λ _. refl)
replace_all-total s (d ∷ q) r = (
  substitute (d ∷ q) r 0 s,
  occurrences (d ∷ q) 0 s,
  replace_all-substitute s (d ∷ q) r (λ e. cc),
  substitute-unchanged (d ∷ q) r s,
)

pub replace_step-Honest : (f r : Bytes) (p : Bytes × Bool) → Honest p (replace_step f r p)
unfolding replace_step
replace_step-Honest f r (s, changed) =
    let (t, n, e, u) = replace_all-total s f r in
    rw (e, replace_step) (λ h. let (z, c) = raised changed n h in (u z, c))

replace_if-Honest : (f r : Bytes) (p : Bytes × Bool) → Honest p (replace_if f r p)
replace_if-Honest [] r p = Honest-refl p
replace_if-Honest (d ∷ q) r p = replace_step-Honest (d ∷ q) r p

hex_step-Honest : (f r : Bytes) (p : Bytes × Bool) → Honest p (hex_step f r p)
unfolding hex_step
hex_step-Honest f r p = elim (Option-cases (decode_hex_string f)) [
  | inl e ↦ rw (e, hex_step) (Honest-refl p)
  | inr (fb, e) ↦ elim (Option-cases (decode_hex_string r)) [
    | inl e' ↦ rw (e, e', hex_step) (Honest-refl p)
    | inr (rb, e') ↦ rw (e, e', hex_step) (replace_if-Honest fb rb p)
  ]
]

Honest-if : {A : Type 0} (b : Bool) (p q : A × Bool) → Honest p q → Honest p (if b then q else p)
Honest-if true p q h = h
Honest-if false p q h = Honest-refl p

hex_if-Honest :
    (f r : Bytes) (p q : Bytes × Bool)
    → Honest p q
    → Honest p (if is_empty f then q else hex_step f r q)
hex_if-Honest [] r p q h = h
hex_if-Honest (d ∷ f) r p q h =
    Honest-trans p q (hex_step (d ∷ f) r q) h (hex_step-Honest (d ∷ f) r q)

transport_action-Honest : (a : RuleAction) (p : Bytes × Bool) → Honest p (transport_action a p)
transport_action-Honest a p =
    hex_if-Honest a.hex_find a.hex_replace p _ (replace_if-Honest a.text_find a.text_replace p)

transport_loop-Honest :
    (x : RuleMatchContext) (rules : List RuleDefinition) (p : Bytes × Bool)
    → Honest p (transport_loop x rules p)
unfolding transport_loop
transport_loop-Honest x [] p = Honest-refl p
transport_loop-Honest x (rule ∷ rules) p =
    Honest-trans p _ (transport_loop x (rule ∷ rules) p)
      (Honest-if (matches rule.when x) p _ (transport_action-Honest rule.action p))
      (transport_loop-Honest x rules _)

-- Where `apply_transport` reports no change, the payload is the one it was given.
pub apply_transport-unchanged :
    (rules : List RuleDefinition) (payload : Bytes) (x : RuleMatchContext)
    → (apply_transport rules payload x).1 ≡ false
    → (apply_transport rules payload x).0 ≡ payload
unfolding apply_transport
apply_transport-unchanged rules payload x h = (transport_loop-Honest x rules (payload, false) h).0

set_headers-Honest : (actions : HeaderMap) (p : HeaderMap × Bool) → Honest p (set_headers actions p)
unfolding set_headers
set_headers-Honest [] p = Honest-refl p
set_headers-Honest ((name, value) ∷ actions) (headers, changed) =
    Honest-trans (headers, changed) _ (set_headers ((name, value) ∷ actions) (headers, changed))
      (set_one (needs_header headers name value)) (set_headers-Honest actions _)
  where
    set_one :
        (b : Bool)
        → Honest
            (headers, changed)
            (if b then (set_header headers name value, true) else (headers, changed))
    set_one true h = absurd (cc h)
    set_one false h = (refl, h)

abbrev KeepsMessage : Message → Message → Type 0
KeepsMessage m n =
    n.changed ≡ false → (n.headers ≡ m.headers) × (n.body ≡ m.body) × (m.changed ≡ false)

http_action-KeepsMessage : (a : RuleAction) (m : Message) → KeepsMessage m (http_action a m)
unfolding http_action
http_action-KeepsMessage a m h =
    let hs = set_headers a.header_set (m.headers, m.changed) in
    let p : Bytes × Bool = (m.body, hs.1) in
    let q = replace_if a.body_find a.body_replace p in
    let (e₁, h₁) = replace_if-Honest a.text_find a.text_replace q h in
    let (e₂, h₂) = replace_if-Honest a.body_find a.body_replace p h₁ in
    let (e₃, h₃) = set_headers-Honest a.header_set (m.headers, m.changed) h₂ in (e₃, e₁ ∙ e₂, h₃)

http_loop-KeepsMessage :
    (x : RuleMatchContext) (rules : List RuleDefinition) (m : Message)
    → KeepsMessage m (http_loop x rules m)
unfolding http_loop
http_loop-KeepsMessage x [] m h = (refl, refl, h)
http_loop-KeepsMessage x (rule ∷ rules) m h =
    let (e₁, e₂, h') = http_loop-KeepsMessage x rules _ h in
    let (f₁, f₂, h'') = one (matches rule.when x) h' in (e₁ ∙ f₁, e₂ ∙ f₂, h'')
  where
    one : (b : Bool) → KeepsMessage m (if b then http_action rule.action m else m)
    one true h = http_action-KeepsMessage rule.action m h
    one false h = (refl, refl, h)

http_request-unchanged :
    (rules : List RuleDefinition) (x : RuleMatchContext) (q : HttpRequest)
    → (apply_http_request rules q x).1 ≡ false
    → (apply_http_request rules q x).0 ≡ q
unfolding apply_http_request
http_request-unchanged rules x q h =
    let (e₁, e₂, _) =
      http_loop-KeepsMessage x rules
        (record { headers = q.headers; body = q.body; changed = false }) h in
    cc (e₁, e₂)

http_response-unchanged :
    (rules : List RuleDefinition) (x : RuleMatchContext) (r : HttpResponse)
    → (apply_http_response rules r x).1 ≡ false
    → (apply_http_response rules r x).0 ≡ r
unfolding apply_http_response
http_response-unchanged rules x r h =
    let (e₁, e₂, _) =
      http_loop-KeepsMessage x rules
        (record { headers = r.headers; body = r.body; changed = false }) h in
    cc (e₁, e₂)

-- The rules report a change to a request, or each of its fields is what it was; and so for a response.
pub apply_http-unchanged :
    (rules : List RuleDefinition) (x : RuleMatchContext) (q : HttpRequest) (r : HttpResponse)
    → (((apply_http_request rules q x).1 ≡ true) ⊎ ((apply_http_request rules q x).0 ≡ q))
      × (((apply_http_response rules r x).1 ≡ true) ⊎ ((apply_http_response rules r x).0 ≡ r))
apply_http-unchanged rules x q r = (
  elim (Bool-cases (apply_http_request rules q x).1) [
    | inl b ↦ inl b
    | inr b ↦ inr (http_request-unchanged rules x q b)
  ],
  elim (Bool-cases (apply_http_response rules r x).1) [
    | inl b ↦ inl b
    | inr b ↦ inr (http_response-unchanged rules x r b)
  ],
)
