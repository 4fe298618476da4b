-- ===== src/Transport/Send/Whole.antt =====
-- The loop that writes a text in pieces ends, and says truly whether all of it went.
use network_proxy.Prelude.{
  ltb, leb, ◌==◌, ltb→lt, Bool-cases, Option-cases, ℕ, zero, suc, ◌+◌, ◌-◌, ◌≤◌, ◌<◌, ◌≡◌, inl, inr,
  Bool, true, false, Option, some, arith,
}
use network_proxy.Transport.Send.{write_loop}

-- No call takes more than it is offered.
abbrev pub TakesOffered : (ℕ → ℕ → Option ℕ) → Type 0
TakesOffered answer = (offset offered sent : ℕ) → answer offset offered ≡ some sent → sent ≤ offered

module _ (ask : ℕ → ℕ) (answer : ℕ → ℕ → Option ℕ) (n : ℕ) where
  pub write_loop-total :
      (fuel offset : ℕ)
      → ((left : ℕ) → ask left ≤ left)
      → TakesOffered answer
      → offset ≤ n
      → n - offset < fuel
      → (sent : ℕ) × (ok : Bool) × (write_loop ask answer n fuel offset ≡ some (sent, ok))
        × (sent ≤ n)
        × (ok ≡ leb n sent)
  unfolding write_loop
  write_loop-total zero offset a t l f = absurd (omega arith)
  write_loop-total (suc fuel) offset a t l f = elim (Bool-cases (ltb offset n)) [
    | inr b ↦ (offset, true, rw (write_loop, b), l, ground arith)
    | inl b ↦ elim (Option-cases (answer offset (ask (n - offset)))) [
      | inl e ↦ (offset, false, rw (write_loop, b, e), l, ground arith)
      | inr (k, e) ↦ elim (Bool-cases (k == 0)) [
        | inl z ↦ (offset, false, rw (write_loop, b, e, z), l, ground arith)
        | inr z ↦
            let i = t offset (ask (n - offset)) k e in
            let (sent, ok, g, m, o) =
              write_loop-total fuel (offset + k) a t
                (omega (arith, i, a (n - offset), ltb→lt offset n b)) (ground (arith, i, z)) in
            (sent, ok, rw (write_loop, b, e, z) g, m, o)
      ]
    ]
  ]
