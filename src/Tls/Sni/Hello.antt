-- ===== src/Tls/Sni/Hello.antt =====
-- The parser on a ClientHello that is written field by field.
use network_proxy.Prelude.{
  ltb, if◌then◌else◌, length, length-append, All, Bytes, ℕ, ◌+◌, ◌*◌, ◌/◌, ◌%◌, ◌≤◌, ◌≡◌, refl, ◌∙◌,
  ◌≢◌, Bool, false, List, [], ◌∷◌, ◌++◌, arith,
}
use network_proxy.Tls.Sni.{
  Outcome, found, read_u24, extensions, compression_methods, cipher_suites, session_id, handshake,
  try_extract_sni_from_client_hello,
}
use network_proxy.Tls.Sni.Names.{
  u16, vector8, vector16, write_extensions, name_extension, At, At-skip, read_u8-At, read_u16-At,
  extensions-At,
}

At-to : (d : Bytes) (o o' : ℕ) (u s : Bytes) → o + length u ≡ o' → At d o (u ++ s) → At d o' s
At-to d o o' u s e h = rw e at (At-skip d o u s h)

module _ (d : Bytes) where
  compression_methods-At :
      (o : ℕ) (c s : Bytes)
      → At d o (vector8 c s)
      → (compression_methods d o ≡ extensions d (o + (1 + length c))) × At d (o + (1 + length c)) s
  unfolding compression_methods
  compression_methods-At o c s h =
      let b : ltb (length d) (o + 1) ≡ false = ground (arith, h.1) in
      (
        rw (compression_methods, b) (read_u8-At d o (length c) (c ++ s) _ h),
        At-to d o (o + (1 + length c)) (length c ∷ c) s (omega arith) h,
      )

  cipher_suites-At :
      (o : ℕ) (c s : Bytes)
      → At d o (vector16 c s)
      → (cipher_suites d o ≡ compression_methods d (o + (2 + length c)))
        × At d (o + (2 + length c)) s
  unfolding cipher_suites
  cipher_suites-At o c s h =
      let b : ltb (length d) (o + 2) ≡ false = ground (arith, h.1) in
      (
        rw (cipher_suites, b) (read_u16-At d o (length c) (c ++ s) _ h),
        At-to d o (o + (2 + length c)) (u16 (length c) c) s (omega arith) h,
      )

  session_id-At :
      (o : ℕ) (c s : Bytes)
      → At d o (vector8 c s)
      → (session_id d o ≡ cipher_suites d (o + (1 + length c))) × At d (o + (1 + length c)) s
  unfolding session_id
  session_id-At o c s h =
      let b : ltb (length d) (o + 1) ≡ false = ground (arith, h.1) in
      (
        rw (session_id, b) (read_u8-At d o (length c) (c ++ s) _ h),
        At-to d o (o + (1 + length c)) (length c ∷ c) s (omega arith) h,
      )

  -- The fields behind the version and the random bytes.
  session_id-found :
      (o : ℕ) (session ciphers compression : Bytes) (before : List (ℕ × Bytes)) (name s : Bytes)
      → name ≢ []
      → All (λ (e : ℕ × Bytes). e.0 ≢ 0) before
      → At d o (
          vector8 session (
            vector16 ciphers (
              vector8 compression (vector16 (write_extensions before (name_extension name s)) []))))
      → session_id d o ≡ found name
  session_id-found o session ciphers compression before name s n others h =
      let (e₁, h₁) = session_id-At o session _ h in
      let (e₂, h₂) = cipher_suites-At _ ciphers _ h₁ in
      let (e₃, h₃) = compression_methods-At _ compression _ h₂ in
      e₁ ∙ e₂ ∙ e₃ ∙ extensions-At d _ before name s n others h₃

  handshake-found :
      (n : ℕ) (random t : Bytes) (o : Outcome)
      → length random ≡ 34
      → n ≡ length random + length t
      → (At d 43 t → session_id d 43 ≡ o)
      → At d 6 (n / 65536 ∷ u16 (n % 65536) (random ++ t))
      → handshake d ≡ o
  unfolding handshake read_u24
  handshake-found n random t o r m k h =
      let a = length-append random t in
      let b : ltb (length d) 9 ≡ false = ground (arith, h.1) in
      let z : n / 65536 * 65536 + n % 65536 ≡ n = omega arith in
      let c : ltb (length d) (9 + n) ≡ false = ground (arith, h.1, a) in
      let f : ltb (length d) (9 + 34) ≡ false = ground (arith, h.1, a) in
      let h₇ = At-to d 6 7 (n / 65536 ∷ []) (u16 (n % 65536) (random ++ t)) refl h in
      let h₉ = At-to d 6 9 (n / 65536 ∷ u16 (n % 65536) []) (random ++ t) refl h in
      let h₄₃ = At-to d 9 43 random t (omega arith) h₉ in
      rw (handshake, b)
        (read_u8-At d 6 (n / 65536) (u16 (n % 65536) (random ++ t)) _ h
          ∙ read_u16-At d 7 (n % 65536) (random ++ t) _ h₇
          ∙ rw (z, c, f) (k h₄₃))

if-false : (b : Bool) (x y : Outcome) → b ≡ false → (if b then x else y) ≡ y
if-false b x y e = rw e

-- The record header, and the type of the handshake.
opening-found :
    (d : Bytes) (minor r₁ r₂ : ℕ) (t : Bytes) (o : Outcome)
    → At d 0 (0x16 ∷ 0x03 ∷ minor ∷ r₁ ∷ r₂ ∷ 0x01 ∷ t)
    → 9 ≤ length d
    → handshake d ≡ o
    → try_extract_sni_from_client_hello d ≡ o
unfolding try_extract_sni_from_client_hello
opening-found d minor r₁ r₂ t o h l k =
    if-false (ltb (length d) 5) _ _ (ground arith)
    ∙ read_u8-At d 0 0x16 _ _ h
    ∙ read_u8-At d 1 0x03 _ _ (At-to d 0 1 (0x16 ∷ []) _ refl h)
    ∙ if-false (ltb (length d) 9) _ _ (ground arith)
    ∙ read_u8-At d 5 0x01 _ _ (At-to d 0 5 (0x16 ∷ 0x03 ∷ minor ∷ r₁ ∷ r₂ ∷ []) _ refl h)
    ∙ k

-- What follows the random bytes: session id, cipher suites, compression methods and extensions.
abbrev pub hello_fields : Bytes → Bytes → Bytes → List (ℕ × Bytes) → Bytes → Bytes → Bytes
hello_fields session ciphers compression before name s = vector8 session (
    vector16 ciphers
      (vector8 compression (vector16 (write_extensions before (name_extension name s)) [])))

-- A handshake record with a ClientHello; the length of the record is not looked at.
abbrev pub client_hello : ℕ → ℕ → ℕ → Bytes → Bytes → Bytes
client_hello minor r₁ r₂ random fields =
    let n = length random + length fields in
    0x16 ∷ 0x03 ∷ minor ∷ r₁ ∷ r₂ ∷ 0x01 ∷ n / 65536 ∷ u16 (n % 65536) (random ++ fields)

-- From a ClientHello the parser gives the server's name, where it is not empty: whatever the version,
-- the 34 bytes behind the handshake header, the session id, the cipher suites and the compression
-- methods are, and whatever extensions of other types stand in front of it or behind it.
pub try_extract_sni-client_hello :
    (minor r₁ r₂ : ℕ) (random session ciphers compression : Bytes) (before : List (ℕ × Bytes))
    (name s : Bytes)
    → length random ≡ 34
    → name ≢ []
    → All (λ (e : ℕ × Bytes). e.0 ≢ 0) before
    → try_extract_sni_from_client_hello
        (client_hello minor r₁ r₂ random (hello_fields session ciphers compression before name s))
      ≡ found name
try_extract_sni-client_hello minor r₁ r₂ random session ciphers compression before name s r n
      others =
    let t = hello_fields session ciphers compression before name s in
    let d = client_hello minor r₁ r₂ random t in
    opening-found d minor r₁ r₂ _ (found name) (refl, omega arith) (omega arith)
      (handshake-found d (length random + length t) random t (found name) r refl
        (session_id-found d 43 session ciphers compression before name s n others)
        (refl, omega (arith, length-append random t)))
