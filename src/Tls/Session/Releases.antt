-- ===== src/Tls/Session/Releases.antt =====
-- A session gives back every handle and every socket that it opens.
use network_proxy.Prelude.{
  ◌==◌, Bool-cases, Option-cases, Bytes, ℕ, ◌+◌, ◌≡◌, refl, ◌∙◌, inl, inr, Bool, true, false, not,
  Option, none, some, List, [], ◌∷◌, ◌++◌, arith,
}
use network_proxy.Common.Handles.{remove, count, count-one}
use network_proxy.Config.Types.{AppConfig}
use network_proxy.Tls.Certificate.{Files, ensure_leaf_certificate_for_host}
use network_proxy.Tls.Process.{OpenSslProcess, new_process, stop, start}
use network_proxy.Tls.Process
use network_proxy.Tls.Process.Handles.{
  held, held-new_process, IsBalanced, stop-count, start-IsBalanced, close_stdin-IsBalanced,
}
use network_proxy.Tls.Session.{
  Probe, allocate_local_port, attempt_loop, connect_local_port, Answers, World, close_stdin_if,
  stop_both, end_session, with_client, with_bridge, with_server, run_tls_mitm_session,
}

module _ (exit_code : ℕ → Option ℕ) (h n : ℕ) where
  stop-IsBalanced :
      (p : OpenSslProcess) (s : Process.System)
      → IsBalanced h n p s
      → let (p', s') = stop exit_code p s in IsBalanced h n p' s'
  unfolding stop
  stop-IsBalanced p s e = omega (arith, held-new_process h, stop-count exit_code h n p s e)

  close_stdin_if-IsBalanced :
      (b : Bool) (p : OpenSslProcess) (s : Process.System)
      → IsBalanced h n p s
      → let (p', s') = close_stdin_if b p s in IsBalanced h n p' s'
  close_stdin_if-IsBalanced true p s e = close_stdin-IsBalanced h n p s e
  close_stdin_if-IsBalanced false p s e = e

module _ (answers : Answers) (h n : ℕ) where
  -- The handles of two processes.
  abbrev AreBalanced : OpenSslProcess → OpenSslProcess → Process.System → Type 0
  AreBalanced p q s = count h s.opened ≡ held h p + (held h q + n)

  stop_both-count :
      (p q : OpenSslProcess) (s : Process.System)
      → AreBalanced p q s
      → let (p', q', s') = stop_both answers p q s in
        (count h s'.opened ≡ n) × (p' ≡ new_process) × (q' ≡ new_process)
  unfolding stop_both stop
  stop_both-count p q s e =
      let a = stop-count answers.exit_code h (held h q + n) p s e in
      (stop-count answers.exit_code h n q (stop answers.exit_code p s).1 a, refl, refl)

  end_session-count :
      (p q : OpenSslProcess) (s : Process.System)
      → AreBalanced p q s
      → count h (end_session answers p q s).opened ≡ n
  unfolding end_session stop_both stop
  end_session-count p q s e =
      let b₁ = answers.outbound_ends_first in
      let b₂ = answers.inbound_ends_first in
      let (q₁, s₁) = close_stdin_if b₁ q s in
      let e₁ =
        close_stdin_if-IsBalanced answers.exit_code h (held h p + n) b₁ q s (omega (arith, e)) in
      let (p₁, s₂) = close_stdin_if b₂ p s₁ in
      let e₂ =
        close_stdin_if-IsBalanced answers.exit_code h (held h q₁ + n) b₂ p s₁ (omega (arith, e₁)) in
      let s₃ = (stop_both answers p₁ q₁ s₂).2 in
      let (e₃, _, _) = stop_both-count p₁ q₁ s₂ e₂ in
      let (p₃, s₄) = close_stdin_if (not b₂) new_process s₃ in
      let e₄ =
        close_stdin_if-IsBalanced answers.exit_code h n (not b₂) new_process s₃
          (omega (arith, e₃, held-new_process h)) in
      let (q₃, s₅) = close_stdin_if (not b₁) new_process s₄ in
      let e₅ =
        close_stdin_if-IsBalanced answers.exit_code h (held h p₃ + n) (not b₁) new_process s₄
          (omega (arith, e₄, held-new_process h)) in
      (stop_both-count q₃ p₃ s₅ e₅).0

-- Either no socket was opened, or the one that is given was.
abbrev Connects : ℕ → List ℕ → Option ℕ × List ℕ → Type 0
Connects h sockets (none, sockets') = count h sockets' ≡ count h sockets
Connects h sockets (some k, sockets') = sockets' ≡ k ∷ sockets

connect_local_port-Connects :
    (h : ℕ) (answer : Option ℕ) (connects : ℕ → Bool) (sockets : List ℕ)
    → Connects h sockets (connect_local_port answer connects sockets)
unfolding connect_local_port
connect_local_port-Connects h none connects sockets = refl
connect_local_port-Connects h (some k) connects sockets =
    elim (Bool-cases (attempt_loop 30 connects)) [
      | inl a ↦ rw (connect_local_port, a) refl
      | inr a ↦ rw (connect_local_port, a) (count-one h k sockets)
    ]

-- The handles and the sockets that are open.
abbrev AreReleased : ℕ → ℕ → ℕ → World → Type 0
AreReleased h n m w = (count h w.handles.opened ≡ n) × (count h w.sockets ≡ m)

module _ (config : AppConfig) (answers : Answers) (host : Bytes) (port : ℕ) (h n m : ℕ) where
  with_client-AreReleased :
      (p : OpenSslProcess) (bridge : ℕ) (sockets : List ℕ) (w : World)
      → IsBalanced h n p w.handles
      → count h sockets ≡ m
      → w.sockets ≡ bridge ∷ sockets
      → AreReleased h n m (with_client answers config host port p bridge w).0
  unfolding with_client stop_both stop
  with_client-AreReleased p bridge sockets w e c d =
      let (q, s, ok) = start answers.exit_code answers.client_started new_process w.handles in
      let e₁ =
        start-IsBalanced answers.exit_code h (held h p + n) answers.client_started new_process
          w.handles (omega (arith, e, held-new_process h)) in
      let closed : count h (remove bridge w.sockets) ≡ m = rw d (count-one h bridge sockets ∙ c) in
      let e₂ = stop-IsBalanced answers.exit_code h (held h q + n) p s (omega (arith, e₁)) in
      elim (Bool-cases ok) [
        | inl b ↦
            rw (with_client, b) (end_session-count answers h n p q s (omega (arith, e₁)), closed)
        | inr b ↦
            rw (with_client, b)
              (
                (stop_both-count answers h n q new_process (stop answers.exit_code p s).1
                    (omega (arith, e₂))).0,
                closed,
              )
      ]

  with_bridge-AreReleased :
      (p : OpenSslProcess) (bridge : Option ℕ) (sockets sockets' : List ℕ) (w : World)
      → IsBalanced h n p w.handles
      → count h sockets ≡ m
      → Connects h sockets (bridge, sockets')
      → AreReleased h n m (with_bridge answers config host port p (bridge, sockets') w).0
  unfolding with_bridge stop
  with_bridge-AreReleased p none sockets sockets' w e c d =
      let z = stop-count answers.exit_code h n p w.handles e in
      (
        stop-count answers.exit_code h n new_process (stop answers.exit_code p w.handles).1
            (omega (arith, z, held-new_process h)),
        d ∙ c,
      )
  with_bridge-AreReleased p (some bridge) sockets sockets' w e c d =
      with_client-AreReleased p bridge sockets (record w { sockets = sockets' }) e c d

  with_server-AreReleased :
      (command : Bytes) (w : World)
      → AreReleased h n m w
      → AreReleased h n m (with_server answers config host port command w).0
  unfolding with_server
  with_server-AreReleased command w (e, c) =
      let (p, s, ok) = start answers.exit_code answers.server_started new_process w.handles in
      let e₁ =
        start-IsBalanced answers.exit_code h n answers.server_started new_process w.handles
          (omega (arith, e, held-new_process h)) in
      let (bridge, sockets') =
        connect_local_port answers.bridge_socket answers.connects w.sockets in
      elim (Bool-cases ok) [
        | inr b ↦ rw (with_server, b) (stop-count answers.exit_code h n p s e₁, c)
        | inl b ↦
            rw (with_server, b)
              (with_bridge-AreReleased p bridge w.sockets sockets'
                (record w { handles = s; commands = w.commands ++ (command ∷ []) }) e₁ c
                (connect_local_port-Connects h answers.bridge_socket answers.connects w.sockets))
      ]

allocate_local_port-count :
    (h : ℕ) (answers : Probe) (sockets : List ℕ)
    → count h (allocate_local_port answers sockets).1 ≡ count h sockets
unfolding allocate_local_port
allocate_local_port-count h answers sockets = elim (Option-cases answers.probe_socket) [
  | inl e ↦ rw (allocate_local_port, e)
  | inr (k, e) ↦ elim (Bool-cases answers.binds) [
    | inr b ↦ rw (allocate_local_port, e, b) (count-one h k sockets)
    | inl b ↦ elim (Option-cases answers.allocated_port) [
      | inl f ↦ rw (allocate_local_port, e, b, f) (count-one h k sockets)
      | inr (port, f) ↦ rw (allocate_local_port, e, b, f) (count-one h k sockets)
    ]
  ]
]

-- However a session goes, whichever of its steps fail and whenever its threads end: when
-- `run_tls_mitm_session` returns and the destructors have run, each handle and each socket is open
-- exactly as often as it was before.
pub run_tls_mitm_session-releases :
    (h : ℕ) (system : Bytes → Files → Bool × Files) (join : Bytes → Bytes → Bytes)
    (makes_directory opens : Bytes → Bool) (config : AppConfig) (answers : Answers)
    (upstream_host : Bytes) (upstream_port : ℕ) (w : World)
    → let (w', ok) =
        run_tls_mitm_session system join makes_directory opens config answers upstream_host
          upstream_port w in
      (count h w'.handles.opened ≡ count h w.handles.opened)
      × (count h w'.sockets ≡ count h w.sockets)
unfolding run_tls_mitm_session
run_tls_mitm_session-releases h system join makes_directory opens config answers host port w =
    let c = allocate_local_port-count h answers.probe w.sockets in
    elim (Option-cases
      (ensure_leaf_certificate_for_host system join makes_directory opens config host
        w.certificates).1) [
          | inr (e, f) ↦ rw (run_tls_mitm_session, f) (refl, refl)
          | inl f ↦ elim (Bool-cases ((allocate_local_port answers.probe w.sockets).0 == 0)) [
            | inl b ↦ rw (run_tls_mitm_session, f, b) (refl, c)
            | inr b ↦
                rw (run_tls_mitm_session, f, b)
                  (with_server-AreReleased config answers host port h (count h w.handles.opened)
                    (count h w.sockets) _ _ (refl, c))
          ]
        ]
