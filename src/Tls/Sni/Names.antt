-- ===== src/Tls/Sni/Names.antt =====
-- The loops of the parser, on extensions that are written one behind another.
use network_proxy.Prelude.{
  ltb, leb, ◌==◌, length, get_elem?, take, drop, length-append, take-length-append,
  drop-length-append, All, drop-drop, Bytes, ℕ, zero, suc, ◌+◌, ◌*◌, ◌/◌, ◌%◌, ◌≤◌, ◌<◌, ◌≡◌, refl,
  sym, ap, ◌∙◌, ◌≢◌, true, false, some, List, [], ◌∷◌, ◌++◌, append-nil, arith,
}
use network_proxy.Tls.Sni.{
  Outcome, found, read_u8, read_u16, assign_name, name_loop, server_names, extension_loop,
  extensions,
}

-- A number in two bytes, and contents behind their length in one byte or in two.
abbrev pub u16 : ℕ → Bytes → Bytes
u16 n s = n / 256 ∷ n % 256 ∷ s

abbrev pub vector8 : Bytes → Bytes → Bytes
vector8 c s = length c ∷ (c ++ s)

abbrev pub vector16 : Bytes → Bytes → Bytes
vector16 c s = u16 (length c) (c ++ s)

-- Extensions of any type, and the one of the server's name.
abbrev pub write_extensions : List (ℕ × Bytes) → Bytes → Bytes
write_extensions [] s = s
write_extensions ((type, contents) ∷ es) s = u16 type (vector16 contents (write_extensions es s))

abbrev pub name_extension : Bytes → Bytes → Bytes
name_extension name s = u16 0 (u16 (5 + length name) (u16 (3 + length name) (0 ∷ vector16 name s)))

length-write_extensions :
    (es : List (ℕ × Bytes)) (s : Bytes) → length es + length s ≤ length (write_extensions es s)
length-write_extensions [] s = omega arith
length-write_extensions ((type, contents) ∷ es) s =
    omega (arith, length-write_extensions es s, length-append contents (write_extensions es s))

-- What stands in the data from an offset on.
abbrev pub At : Bytes → ℕ → Bytes → Type 0
At d o s = (drop o d ≡ s) × (o + length s ≡ length d)

get_elem?-drop : (d : Bytes) (o x : ℕ) (s : Bytes) → drop o d ≡ x ∷ s → get_elem? d o ≡ some x
get_elem?-drop [] zero x s h = absurd cc
get_elem?-drop [] (suc o) x s h = absurd cc
get_elem?-drop (c ∷ d) zero x s h = cc h
get_elem?-drop (c ∷ d) (suc o) x s h = get_elem?-drop d o x s h

pub At-skip : (d : Bytes) (o : ℕ) (u s : Bytes) → At d o (u ++ s) → At d (o + length u) s
At-skip d o u s (e, n) = (
  sym (drop-drop (length u) o d) ∙ ap (λ (t : Bytes). drop (length u) t) e ∙ drop-length-append u s,
  omega (arith, length-append u s),
)

pub read_u8-At :
    (d : Bytes) (o x : ℕ) (s : Bytes) (k : ℕ → Outcome) → At d o (x ∷ s) → read_u8 d o k ≡ k x
unfolding read_u8
read_u8-At d o x s k (e, n) = rw (read_u8, get_elem?-drop d o x s e)

pub read_u16-At :
    (d : Bytes) (o n : ℕ) (s : Bytes) (k : ℕ → Outcome) → At d o (u16 n s) → read_u16 d o k ≡ k n
unfolding read_u16
read_u16-At d o n s k h =
    let e : n / 256 * 256 + n % 256 ≡ n = omega arith in
    read_u8-At d o (n / 256) (n % 256 ∷ s) _ h
    ∙ read_u8-At d (o + 1) (n % 256) s _ (At-skip d o (n / 256 ∷ []) (n % 256 ∷ s) h)
    ∙ rw e

module _ (d : Bytes) where
  assign_name-At :
      (o : ℕ) (name s : Bytes)
      → name ≢ []
      → At d o (name ++ s)
      → assign_name d o (length name) ≡ found name
  unfolding assign_name
  assign_name-At o [] s n h = absurd (n refl)
  assign_name-At o (c ∷ name) s n (e, m) =
      let b : ltb (length d) (o + length (c ∷ name)) ≡ false =
        ground (arith, m, length-append (c ∷ name) s) in
      let z : (length (c ∷ name) == 0) ≡ false = ground arith in
      rw (assign_name, b, z)
        (ap found
          (ap (λ (t : Bytes). take (length (c ∷ name)) t) e ∙ take-length-append (c ∷ name) s))

  name_loop-At :
      (fuel o : ℕ) (name s : Bytes)
      → name ≢ []
      → At d o (0 ∷ vector16 name s)
      → name_loop (suc fuel) d o (o + 3 + length name) ≡ found name
  unfolding name_loop
  name_loop-At fuel o name s n h =
      let b : leb (o + 3) (o + 3 + length name) ≡ true = ground arith in
      let c : ltb (o + 3 + length name) (o + 3 + length name) ≡ false = ground arith in
      let h₁ = At-skip d o (0 ∷ []) (vector16 name s) h in
      let h₃ = At-skip d o (0 ∷ u16 (length name) []) (name ++ s) h in
      rw (name_loop, b)
        (read_u8-At d o 0 (vector16 name s) _ h
          ∙ read_u16-At d (o + 1) (length name) (name ++ s) _ h₁
          ∙ rw c (assign_name-At (o + 3) name s n h₃))

  -- The contents of a server name extension with one name.
  server_names-At :
      (o : ℕ) (name s : Bytes)
      → name ≢ []
      → At d o (u16 (3 + length name) (0 ∷ vector16 name s))
      → server_names d o (5 + length name) (length d) ≡ found name
  unfolding server_names
  server_names-At o name s n h =
      let b : ltb (length d) (o + 2) ≡ false = ground (arith, h.1) in
      let c : ltb (o + 2 + (3 + length name)) (o + (5 + length name)) ≡ false = ground arith in
      let e : o + (5 + length name) ≡ o + 2 + 3 + length name = omega arith in
      let f : length d + 1 ≡ suc (length d) = omega arith in
      rw (server_names, b)
        (read_u16-At d o (3 + length name) (0 ∷ vector16 name s) _ h
          ∙ rw (c, e, f)
              (name_loop-At (length d) (o + 2) name s n
                (At-skip d o (u16 (3 + length name) []) (0 ∷ vector16 name s) h)))

  extension_loop-At :
      (fuel o : ℕ) (before : List (ℕ × Bytes)) (name s : Bytes)
      → name ≢ []
      → All (λ (e : ℕ × Bytes). e.0 ≢ 0) before
      → length before < fuel
      → At d o (write_extensions before (name_extension name s))
      → extension_loop fuel d o (length d) ≡ found name
  unfolding extension_loop
  extension_loop-At zero o before name s n others f h = absurd (omega arith)
  extension_loop-At (suc fuel) o [] name s n others f h =
      let b : leb (o + 4) (length d) ≡ true = ground (arith, h.1) in
      let c : ltb (length d) (o + 4 + (5 + length name)) ≡ false =
        ground (arith, h.1, length-append name s) in
      let t = u16 (3 + length name) (0 ∷ vector16 name s) in
      let h₂ = At-skip d o (u16 0 []) (u16 (5 + length name) t) h in
      let h₄ = At-skip d o (u16 0 (u16 (5 + length name) [])) t h in
      rw (extension_loop, b)
        (read_u16-At d o 0 (u16 (5 + length name) t) _ h
          ∙ read_u16-At d (o + 2) (5 + length name) t _ h₂
          ∙ rw (c, server_names-At (o + 4) name s n h₄))
  extension_loop-At (suc fuel) o ((type, contents) ∷ before) name s n others f h =
      let more = write_extensions before (name_extension name s) in
      let b : leb (o + 4) (length d) ≡ true = ground (arith, h.1) in
      let c : ltb (length d) (o + 4 + length contents) ≡ false =
        ground (arith, h.1, length-append contents more) in
      let z : (type == 0) ≡ false = ground (arith, others.0) in
      let h₂ = At-skip d o (u16 type []) (vector16 contents more) h in
      let h₄ = At-skip d o (u16 type (u16 (length contents) [])) (contents ++ more) h in
      rw (extension_loop, b)
        (read_u16-At d o type (vector16 contents more) _ h
          ∙ read_u16-At d (o + 2) (length contents) (contents ++ more) _ h₂
          ∙ rw (c, z)
              (extension_loop-At fuel (o + 4 + length contents) before name s n others.1
                (omega arith) (At-skip d (o + 4) contents more h₄)))

  pub extensions-At :
      (o : ℕ) (before : List (ℕ × Bytes)) (name s : Bytes)
      → name ≢ []
      → All (λ (e : ℕ × Bytes). e.0 ≢ 0) before
      → At d o (vector16 (write_extensions before (name_extension name s)) [])
      → extensions d o ≡ found name
  unfolding extensions
  extensions-At o before name s n others h =
      let es = write_extensions before (name_extension name s) in
      let b : ltb (length d) (o + 2) ≡ false = ground (arith, h.1) in
      let c : ltb (o + 2 + length es) (length d) ≡ false =
        ground (arith, h.1, length-append es []) in
      let h₂ = rw (append-nil es) at (At-skip d o (u16 (length es) []) (es ++ []) h) in
      let f : length before < length d + 1 =
        omega (
          arith,
          h.1,
          length-append es [],
          length-write_extensions before (name_extension name s),
        ) in
      rw (extensions, b)
        (read_u16-At d o (length es) (es ++ []) _ h
          ∙ rw c (extension_loop-At (length d + 1) (o + 2) before name s n others f h₂))
