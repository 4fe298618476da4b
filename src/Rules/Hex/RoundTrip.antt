-- ===== src/Rules/Hex/RoundTrip.antt =====
-- `decode_hex_string` reads what a printer of two lower-case digits for a byte writes.
use network_proxy.Rules.Hex.{normalize, strip_0x, nibble, decode_pairs, decode_hex_string}
use network_proxy.Prelude.{
  ltb, ◌==◌, if◌then◌else◌, length, is_empty, All, Bytes, is_space, to_lower_byte, ℕ, ◌+◌, ◌-◌, ◌*◌,
  ◌/◌, ◌%◌, ◌<◌, ◌≡◌, refl, ap, ◌∙◌, false, some, [], ◌∷◌, arith,
}

pub hex_digit : ℕ → ℕ
hex_digit n = if ltb n 10 then b'0' + n else b'a' + (n - 10)

pub encode : Bytes → Bytes
encode [] = []
encode (b ∷ bytes) = hex_digit (b / 16) ∷ hex_digit (b % 16) ∷ encode bytes

nibble-hex_digit : (n : ℕ) → n < 16 → nibble (hex_digit n) ≡ some n
unfolding nibble hex_digit
nibble-hex_digit n h = ground arith

normalize-hex_digit :
    (n : ℕ) (s : Bytes) → n < 16 → normalize (hex_digit n ∷ s) ≡ hex_digit n ∷ normalize s
unfolding normalize hex_digit is_space to_lower_byte
normalize-hex_digit n s h = ground arith

hex_digit-ne-x : (n : ℕ) → n < 16 → (hex_digit n == b'x') ≡ false
unfolding hex_digit
hex_digit-ne-x n h = ground arith

normalize-encode :
    (bytes : Bytes) → All (λ b. b < 256) bytes → normalize (encode bytes) ≡ encode bytes
unfolding encode
normalize-encode [] h = unfold normalize in refl
normalize-encode (b ∷ bytes) (hb, h) =
    normalize-hex_digit (b / 16) _ (omega arith)
    ∙ ap (◌∷◌ (hex_digit (b / 16))) (
        normalize-hex_digit (b % 16) _ (omega arith)
        ∙ ap (◌∷◌ (hex_digit (b % 16))) (normalize-encode bytes h))

strip_0x-encode :
    (bytes : Bytes) → All (λ b. b < 256) bytes → strip_0x (encode bytes) ≡ encode bytes
unfolding encode
strip_0x-encode [] h = refl
strip_0x-encode (b ∷ bytes) (hb, h) = ground (arith, hex_digit-ne-x (b % 16) (omega arith))

length-encode : (bytes : Bytes) → length (encode bytes) ≡ 2 * length bytes
unfolding encode
length-encode [] = refl
length-encode (b ∷ bytes) = omega (arith, length-encode bytes)

decode_pairs-encode :
    (bytes : Bytes) → All (λ b. b < 256) bytes → decode_pairs (encode bytes) ≡ some bytes
unfolding encode decode_pairs
decode_pairs-encode [] h = refl
decode_pairs-encode (b ∷ bytes) (hb, h) =
    let e : b / 16 * 16 + b % 16 ≡ b = omega arith in
    rw (
      nibble-hex_digit (b / 16) (omega arith),
      nibble-hex_digit (b % 16) (omega arith),
      decode_pairs-encode bytes h,
      e,
    )

-- Every byte string is read back from its hexadecimal form.
pub decode_hex_string-encode :
    (bytes : Bytes) → All (λ b. b < 256) bytes → decode_hex_string (encode bytes) ≡ some bytes
unfolding decode_hex_string
decode_hex_string-encode bytes h =
    rw (normalize-encode bytes h, strip_0x-encode bytes h)
      (ground (arith, decode_pairs-encode bytes h, length-encode bytes, empty bytes))
  where
    empty : (bytes : Bytes) → is_empty (encode bytes) ≡ is_empty bytes
    empty [] = unfold encode in refl
    empty (b ∷ bytes) = unfold encode in refl
