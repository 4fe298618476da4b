-- ===== src/Tls/Sni/InBounds.antt =====
-- No read of the parser is out of bounds, and its loops end.
use network_proxy.Prelude.{
  ltb, leb, ◌==◌, if◌then◌else◌, ltb→lt, leb→le, not-ltb→le, Bool-cases, length, get_elem?, Bytes,
  ℕ, zero, suc, ◌+◌, ◌*◌, ◌≤◌, ◌<◌, ◌≡◌, refl, inl, inr, Bool, true, false, not, ◌||◌, some, [],
  ◌∷◌, arith,
}
use network_proxy.Tls.Sni.{
  Outcome, found, refused, fell_through, overrun, spent, read_u8, read_u16, read_u24, assign_name,
  name_loop, server_names, extension_loop, extensions, compression_methods, cipher_suites,
  session_id, handshake, try_extract_sni_from_client_hello,
}

-- Neither a read behind the end nor a loop out of fuel.
abbrev pub IsSafe : Outcome → Type 0
IsSafe (found name) = Unit
IsSafe refused = Unit
IsSafe fell_through = Unit
IsSafe overrun = ⊥
IsSafe spent = ⊥

get_elem?-some : (d : Bytes) (i : ℕ) → i < length d → (b : ℕ) × (get_elem? d i ≡ some b)
get_elem?-some [] i h = absurd (omega arith)
get_elem?-some (c ∷ d) zero h = (c, refl)
get_elem?-some (c ∷ d) (suc i) h = get_elem?-some d i (omega arith)

IsSafe-if :
    (b : Bool) (x y : Outcome)
    → (b ≡ true → IsSafe x)
    → (b ≡ false → IsSafe y)
    → IsSafe (if b then x else y)
IsSafe-if true x y p q = p refl
IsSafe-if false x y p q = q refl

module _ (d : Bytes) where
  read_u8-IsSafe :
      (i : ℕ) (k : ℕ → Outcome) → i < length d → ((b : ℕ) → IsSafe (k b)) → IsSafe (read_u8 d i k)
  unfolding read_u8
  read_u8-IsSafe i k h s = let (b, e) = get_elem?-some d i h in rw (e, read_u8) (s b)

  read_u16-IsSafe :
      (i : ℕ) (k : ℕ → Outcome)
      → i + 1 < length d
      → ((b : ℕ) → IsSafe (k b))
      → IsSafe (read_u16 d i k)
  unfolding read_u16
  read_u16-IsSafe i k h s =
      read_u8-IsSafe i _ (omega arith)
        (λ high. read_u8-IsSafe (i + 1) _ h (λ low. s (high * 256 + low)))

  read_u24-IsSafe :
      (i : ℕ) (k : ℕ → Outcome)
      → i + 2 < length d
      → ((b : ℕ) → IsSafe (k b))
      → IsSafe (read_u24 d i k)
  unfolding read_u24
  read_u24-IsSafe i k h s =
      read_u8-IsSafe i _ (omega arith)
        (λ high. read_u16-IsSafe (i + 1) _ (omega arith) (λ low. s (high * 65536 + low)))

  assign_name-IsSafe : (offset n : ℕ) → offset + n ≤ length d → IsSafe (assign_name d offset n)
  unfolding assign_name
  assign_name-IsSafe offset n h = ground arith

  name_loop-IsSafe :
      (fuel offset end : ℕ)
      → end ≤ length d
      → 0 < fuel
      → end < offset + fuel
      → IsSafe (name_loop fuel d offset end)
  unfolding name_loop
  name_loop-IsSafe zero offset end e z h = absurd (omega arith)
  name_loop-IsSafe (suc fuel) offset end e z h = elim (Bool-cases (leb (offset + 3) end)) [
    | inl b ↦
        rw (b, name_loop)
          (read_u8-IsSafe offset _ (omega (arith, leb→le _ _ b)) λ t.
            read_u16-IsSafe (offset + 1) _ (omega (arith, leb→le _ _ b)) λ n.
              IsSafe-if (ltb end (offset + 3 + n)) _ _ (λ _. tt)
                (λ inside.
                  IsSafe-if (t == 0) _ _
                    (λ _. assign_name-IsSafe (offset + 3) n (omega (arith, not-ltb→le _ _ inside)))
                    (λ _.
                      name_loop-IsSafe fuel (offset + 3 + n) end e
                        (omega (arith, not-ltb→le _ _ inside))
                        (omega (arith, not-ltb→le _ _ inside)))))
    | inr b ↦ rw (b, name_loop) tt
  ]

  server_names-IsSafe :
      (offset n end : ℕ) → end ≤ length d → offset + n ≤ end → IsSafe (server_names d offset n end)
  unfolding server_names
  server_names-IsSafe offset n end e h =
      IsSafe-if (ltb end (offset + 2)) _ _ (λ _. tt)
        (λ b.
          read_u16-IsSafe offset _ (omega (arith, not-ltb→le _ _ b))
            (λ m. names m (ltb (offset + 2 + m) (offset + n)) refl))
    where
      names :
          (m : ℕ) (b : Bool)
          → ltb (offset + 2 + m) (offset + n) ≡ b
          → IsSafe
              (name_loop (length d + 1) d (offset + 2) (if b then offset + 2 + m else offset + n))
      names m true b =
          name_loop-IsSafe (length d + 1) (offset + 2) (offset + 2 + m)
            (omega (arith, ltb→lt _ _ b)) (omega arith) (omega (arith, ltb→lt _ _ b))
      names m false b =
          name_loop-IsSafe (length d + 1) (offset + 2) (offset + n) (omega arith) (omega arith)
            (omega arith)

  after_names :
      (o more : Outcome)
      → IsSafe o
      → IsSafe more
      → IsSafe (elim o [
        | fell_through ↦ more
        | found name ↦ found name
        | refused ↦ refused
        | overrun ↦ overrun
        | spent ↦ spent
      ])
  after_names (found name) more h m = tt
  after_names refused more h m = tt
  after_names fell_through more h m = m
  after_names overrun more h m = absurd h
  after_names spent more h m = absurd h

  extension_loop-IsSafe :
      (fuel offset end : ℕ)
      → end ≤ length d
      → 0 < fuel
      → end < offset + fuel
      → IsSafe (extension_loop fuel d offset end)
  unfolding extension_loop
  extension_loop-IsSafe zero offset end e z h = absurd (omega arith)
  extension_loop-IsSafe (suc fuel) offset end e z h = elim (Bool-cases (leb (offset + 4) end)) [
    | inl b ↦
        rw (b, extension_loop)
          (read_u16-IsSafe offset _ (omega (arith, leb→le _ _ b)) λ t.
            read_u16-IsSafe (offset + 2) _ (omega (arith, leb→le _ _ b)) λ n.
              IsSafe-if (ltb end (offset + 4 + n)) _ _ (λ _. tt)
                (λ inside.
                  IsSafe-if (t == 0) _ _
                    (λ _.
                      after_names (server_names d (offset + 4) n end) _
                        (server_names-IsSafe (offset + 4) n end e (not-ltb→le _ _ inside))
                        (extension_loop-IsSafe fuel (offset + 4 + n) end e
                          (omega (arith, not-ltb→le _ _ inside))
                          (omega (arith, not-ltb→le _ _ inside))))
                    (λ _.
                      extension_loop-IsSafe fuel (offset + 4 + n) end e
                        (omega (arith, not-ltb→le _ _ inside))
                        (omega (arith, not-ltb→le _ _ inside)))))
    | inr b ↦ rw (b, extension_loop) tt
  ]

  extensions-IsSafe : (offset : ℕ) → IsSafe (extensions d offset)
  unfolding extensions
  extensions-IsSafe offset =
      IsSafe-if (ltb (length d) (offset + 2)) _ _ (λ _. tt)
        (λ b.
          read_u16-IsSafe offset _ (omega (arith, not-ltb→le _ _ b))
            (λ n. loop n (ltb (offset + 2 + n) (length d)) refl))
    where
      loop :
          (n : ℕ) (b : Bool)
          → ltb (offset + 2 + n) (length d) ≡ b
          → IsSafe (
              extension_loop (length d + 1) d (offset + 2) (if b then offset + 2 + n else length d))
      loop n true b =
          extension_loop-IsSafe (length d + 1) (offset + 2) (offset + 2 + n)
            (omega (arith, ltb→lt _ _ b)) (omega arith) (omega (arith, ltb→lt _ _ b))
      loop n false b =
          extension_loop-IsSafe (length d + 1) (offset + 2) (length d) (omega arith) (omega arith)
            (omega arith)

  compression_methods-IsSafe : (offset : ℕ) → IsSafe (compression_methods d offset)
  unfolding compression_methods
  compression_methods-IsSafe offset =
      IsSafe-if (ltb (length d) (offset + 1)) _ _ (λ _. tt)
        (λ b. read_u8-IsSafe offset _ (omega (arith, not-ltb→le _ _ b)) (λ n. extensions-IsSafe _))

  cipher_suites-IsSafe : (offset : ℕ) → IsSafe (cipher_suites d offset)
  unfolding cipher_suites
  cipher_suites-IsSafe offset =
      IsSafe-if (ltb (length d) (offset + 2)) _ _ (λ _. tt)
        (λ b.
          read_u16-IsSafe offset _ (omega (arith, not-ltb→le _ _ b))
            (λ n. compression_methods-IsSafe _))

  session_id-IsSafe : (offset : ℕ) → IsSafe (session_id d offset)
  unfolding session_id
  session_id-IsSafe offset =
      IsSafe-if (ltb (length d) (offset + 1)) _ _ (λ _. tt)
        (λ b.
          read_u8-IsSafe offset _ (omega (arith, not-ltb→le _ _ b)) (λ n. cipher_suites-IsSafe _))

  handshake-IsSafe : IsSafe (handshake d)
  unfolding handshake
  handshake-IsSafe =
      IsSafe-if (ltb (length d) 9) _ _ (λ _. tt)
        (λ b. read_u24-IsSafe 6 _ (omega (arith, not-ltb→le _ _ b)) (λ n.
          IsSafe-if (ltb (length d) (9 + n)) _ _ (λ _. tt)
            (λ _. IsSafe-if (ltb (length d) (9 + 34)) _ _ (λ _. tt) (λ _. session_id-IsSafe 43))))

  -- On every input, however its length fields lie, the parser of ClientHello messages reads only
  -- bytes that are there, and its two loops end.
  pub try_extract_sni-IsSafe : IsSafe (try_extract_sni_from_client_hello d)
  unfolding try_extract_sni_from_client_hello
  try_extract_sni-IsSafe =
      IsSafe-if (ltb (length d) 5) _ _ (λ _. tt)
        (λ b. read_u8-IsSafe 0 _ (omega (arith, not-ltb→le _ _ b)) λ b₀.
          read_u8-IsSafe 1 _ (omega (arith, not-ltb→le _ _ b)) λ b₁.
            IsSafe-if (not (b₀ == 0x16) || not (b₁ == 0x03)) _ _ (λ _. tt)
              (λ _.
                IsSafe-if (ltb (length d) 9) _ _ (λ _. tt)
                  (λ b'.
                    read_u8-IsSafe 5 _ (omega (arith, not-ltb→le _ _ b'))
                      λ b₅. IsSafe-if (not (b₅ == 0x01)) _ _ (λ _. tt) (λ _. handshake-IsSafe))))
