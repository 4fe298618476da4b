-- ===== src/Tls/Process/Handles.antt =====
-- No operation loses a handle: what is open is what the object holds, and what was open before it.
use network_proxy.Prelude.{
  Option-cases, ℕ, ◌+◌, ◌-◌, ◌≡◌, ap, inl, inr, Option, none, some, List, [], ◌∷◌, arith,
}
use network_proxy.Common.Handles.{remove, count, count-remove, held_in}
use network_proxy.Tls.Process.{
  OpenSslProcess, new_process, System, open_handle, close_handle, Started, close_stdin, terminate,
  stop, create, start,
}

-- How often the object holds a handle.
pub held : ℕ → OpenSslProcess → ℕ
unfolding held_in
held h p =
    held_in h p.process_handle
    + (held_in h p.thread_handle
        + (held_in h p.stdin_write_handle + held_in h p.stdout_read_handle))

count-close_handle :
    (h : ℕ) (o : Option ℕ) (s : System)
    → count h (close_handle o s).opened ≡ count h s.opened - held_in h o
unfolding held_in
count-close_handle h none s = omega arith
count-close_handle h (some k) s = count-remove h k s.opened

opened-terminate :
    (exit_code : ℕ → Option ℕ) (p : OpenSslProcess) (s : System)
    → (terminate exit_code p s).opened ≡ s.opened
unfolding terminate
opened-terminate exit_code p s = elim (Option-cases p.process_handle) [
  | inl e ↦ rw (terminate, e)
  | inr (k, e) ↦ elim (Option-cases (exit_code k)) [
    | inl f ↦ rw (terminate, e, f)
    | inr (code, f) ↦ rw (terminate, e, f) (ground arith)
  ]
]

pub held-new_process : (h : ℕ) → held h new_process ≡ 0
unfolding held held_in
held-new_process h = omega arith

-- A handle is open as often as the object holds it, and `n` times besides.
abbrev pub IsBalanced : ℕ → ℕ → OpenSslProcess → System → Type 0
IsBalanced h n p s = count h s.opened ≡ held h p + n

module _ (exit_code : ℕ → Option ℕ) (h n : ℕ) where
  pub stop-count :
      (p : OpenSslProcess) (s : System)
      → IsBalanced h n p s
      → count h (stop exit_code p s).1.opened ≡ n
  unfolding stop close_stdin held held_in
  stop-count p s e =
      let s₁ = close_handle p.stdin_write_handle s in
      let s₂ = close_handle p.stdout_read_handle s₁ in
      let q : OpenSslProcess = record p { stdin_write_handle = none } in
      let s₃ = terminate exit_code q s₂ in
      let s₄ = close_handle p.thread_handle s₃ in
      omega (
        arith,
        e,
        count-close_handle h p.stdin_write_handle s,
        count-close_handle h p.stdout_read_handle s₁,
        ap (count h) (opened-terminate exit_code q s₂),
        count-close_handle h p.thread_handle s₃,
        count-close_handle h p.process_handle s₄,
      )

  -- Two pipes are open and the object holds nothing.
  create-IsBalanced :
      (answer : Option (ℕ × ℕ)) (r w i o : ℕ) (s : System)
      → count h s.opened ≡ n
      → let (p, s', _) =
          create answer r w i o new_process
            (open_handle o (open_handle i (open_handle w (open_handle r s)))) in
        IsBalanced h n p s'
  unfolding create count held held_in
  create-IsBalanced none r w i o s e =
      let l₁ = o ∷ i ∷ w ∷ r ∷ s.opened in
      let l₂ = remove i l₁ in
      let l₃ = remove w l₂ in
      let l₄ = remove r l₃ in
      ground (
        arith,
        e,
        count-remove h i l₁,
        count-remove h w l₂,
        count-remove h r l₃,
        count-remove h o l₄,
      )
  create-IsBalanced (some (p, t)) r w i o s e =
      let l₁ = t ∷ p ∷ o ∷ i ∷ w ∷ r ∷ s.opened in
      let l₂ = remove i l₁ in ground (arith, e, count-remove h i l₁, count-remove h w l₂)

  pub start-IsBalanced :
      (answers : Started) (p : OpenSslProcess) (s : System)
      → IsBalanced h n p s
      → let (p', s', _) = start exit_code answers p s in IsBalanced h n p' s'
  unfolding start stop count held held_in
  start-IsBalanced answers p s e =
      let z = stop-count p s e in
      let s' = (stop exit_code p s).1 in
      elim (Option-cases answers.stdout_pipe) [
        | inl f ↦ rw (start, f) (omega (arith, z))
        | inr ((r, w), f) ↦ elim (Option-cases answers.stdin_pipe) [
          | inl g ↦
              let l = w ∷ r ∷ s'.opened in
              rw (start, f, g)
                (ground (arith, z, count-remove h r l, count-remove h w (remove r l)))
          | inr ((i, o), g) ↦ rw (start, f, g) (create-IsBalanced answers.process r w i o s' z)
        ]
      ]

-- What a session does with the object.
pub data Operation : Type 0 where
  starts : Started → Operation
  closes_stdin stops : Operation

-- Each operation has its own answers of `GetExitCodeProcess`.
abbrev pub perform :
    List ((ℕ → Option ℕ) × Operation) → OpenSslProcess → System → OpenSslProcess × System
perform [] p s = (p, s)
perform ((exit_code, starts answers) ∷ more) p s =
    let (p', s', _) = start exit_code answers p s in perform more p' s'
perform ((exit_code, closes_stdin) ∷ more) p s =
    let (p', s') = close_stdin p s in perform more p' s'
perform ((exit_code, stops) ∷ more) p s = let (p', s') = stop exit_code p s in perform more p' s'

module _ (h n : ℕ) where
  pub close_stdin-IsBalanced :
      (p : OpenSslProcess) (s : System)
      → IsBalanced h n p s
      → let (p', s') = close_stdin p s in IsBalanced h n p' s'
  unfolding close_stdin held held_in
  close_stdin-IsBalanced p s e = omega (arith, e, count-close_handle h p.stdin_write_handle s)

  perform-IsBalanced :
      (operations : List ((ℕ → Option ℕ) × Operation)) (p : OpenSslProcess) (s : System)
      → IsBalanced h n p s
      → let (p', s') = perform operations p s in IsBalanced h n p' s'
  unfolding stop held held_in
  perform-IsBalanced [] p s e = e
  perform-IsBalanced ((exit_code, starts answers) ∷ more) p s e =
      perform-IsBalanced more _ _ (start-IsBalanced exit_code h n answers p s e)
  perform-IsBalanced ((exit_code, closes_stdin) ∷ more) p s e =
      perform-IsBalanced more _ _ (close_stdin-IsBalanced p s e)
  perform-IsBalanced ((exit_code, stops) ∷ more) p s e =
      perform-IsBalanced more new_process _ (omega (arith, stop-count exit_code h n p s e))

-- After any operations on a new object, with whatever answers of the system and whatever failures,
-- `stop` (and so the destructor) leaves each handle open exactly as often as it was before the first.
pub perform-stop :
    (h : ℕ) (operations : List ((ℕ → Option ℕ) × Operation)) (exit_code : ℕ → Option ℕ) (s : System)
    → count h
        (stop exit_code
          (perform operations new_process s).0
          (perform operations new_process s).1).1.opened
      ≡ count h s.opened
unfolding held held_in
perform-stop h operations exit_code s =
    stop-count exit_code h (count h s.opened) _ _
      (perform-IsBalanced h (count h s.opened) operations new_process s (omega arith))
