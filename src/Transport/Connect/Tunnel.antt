-- ===== src/Transport/Connect/Tunnel.antt =====
-- The authority of a CONNECT request that is written out as text.
use network_proxy.Prelude.{
  leb, ==_refl, length, is_empty, drop, take-length-append, drop_add-append, Bytes, codes,
  starts_with, find, find_char, rfind_char, substr, to_lower_byte, to_string, is_digit,
  starts_with-append, to_string-IsDigits, sto_unsigned-to_string, Without, Without-append,
  digits-Without, ℕ, ◌+◌, ◌%◌, ◌^◌, ◌≤◌, ◌<◌, ◌≡◌, refl, ap, ◌∙◌, ◌≢◌, true, false, none, some, [],
  ◌∷◌, ◌++◌, arith,
}
use network_proxy.Transport.Connect.{
  starts_with_ignore_case, split_authority, parse_connect_authority,
}

find-Without :
    (d : ℕ) (q s rest : Bytes) → Without d s → find (s ++ (d ∷ q ++ rest)) (d ∷ q) ≡ some (length s)
unfolding find
find-Without d q [] rest h =
    let e : starts_with (d ∷ q ++ rest) (d ∷ q) ≡ true = starts_with-append (d ∷ q) rest in
    rw (find, e)
find-Without d q (c ∷ s) rest h = rw (find, h.0, find-Without d q s rest h.1)

find_char-Without :
    (d : ℕ) (s rest : Bytes) → Without d s → find_char (s ++ (d ∷ rest)) d ≡ some (length s)
unfolding find_char
find_char-Without d [] rest h = rw (find_char, ==_refl d)
find_char-Without d (c ∷ s) rest h = rw (find_char, h.0, find_char-Without d s rest h.1)

rfind_char-absent : (d : ℕ) (s : Bytes) → Without d s → rfind_char s d ≡ none
unfolding rfind_char
rfind_char-absent d [] h = refl
rfind_char-absent d (c ∷ s) h = rw (rfind_char, rfind_char-absent d s h.1, h.0)

rfind_char-Without :
    (d : ℕ) (s rest : Bytes) → Without d rest → rfind_char (s ++ (d ∷ rest)) d ≡ some (length s)
unfolding rfind_char
rfind_char-Without d [] rest h = rw (rfind_char, rfind_char-absent d rest h, ==_refl d)
rfind_char-Without d (c ∷ s) rest h = rw (rfind_char, rfind_char-Without d s rest h)

is_empty-cons : (s : Bytes) → s ≢ [] → is_empty s ≡ false
is_empty-cons [] n = absurd (n refl)
is_empty-cons (c ∷ s) n = refl

length-cons : (s : Bytes) → s ≢ [] → 1 ≤ length s
length-cons [] n = absurd (n refl)
length-cons (c ∷ s) n = omega arith

append-cons : (s t : Bytes) → s ≢ [] → s ++ t ≢ []
append-cons [] t n = absurd (n refl)
append-cons (c ∷ s) t n = λ e. cc e

split_authority-port :
    (host : Bytes) (port : ℕ)
    → host ≢ []
    → port < 2 ^ 32
    → split_authority (host ++ (b':' ∷ to_string port)) ≡ some (host, port % 2 ^ 16)
unfolding split_authority is_digit
split_authority-port host port n h =
    let ds = to_string-IsDigits port in
    let e : drop (length host + 1) (host ++ (b':' ∷ to_string port)) ≡ to_string port =
      drop_add-append host (b':' ∷ to_string port) 1 in
    rw (
      split_authority,
      rfind_char-Without b':' host (to_string port) (digits-Without b':' (to_string port) refl ds),
      take-length-append host (b':' ∷ to_string port),
      e,
      is_empty-cons host n,
      sto_unsigned-to_string (2 ^ 32) port h,
    )

-- The first line of a request, up to its end.
abbrev pub connect_line : Bytes → Bytes → Bytes
connect_line authority version = codes "CONNECT " ++ (authority ++ (b' ' ∷ version))

parse-authority :
    (authority version rest : Bytes)
    → authority ≢ []
    → Without b' ' authority
    → Without b'\r' (connect_line authority version)
    → parse_connect_authority (connect_line authority version ++ (codes "\r\n" ++ rest))
      ≡ split_authority authority
unfolding parse_connect_authority starts_with_ignore_case to_lower_byte
parse-authority authority version rest n w l =
    let e : leb (8 + length authority) 8 ≡ false = ground (arith, length-cons authority n) in
    rw
      (
        parse_connect_authority,
        find-Without b'\r' (codes "\n") (connect_line authority version) rest l,
        take-length-append (connect_line authority version) (codes "\r\n" ++ rest),
        find_char-Without b' ' authority version w,
        e,
      )
      (ap split_authority (
        ap (λ (z : Bytes). substr z 8 (length authority))
          (take-length-append (connect_line authority version) (codes "\r\n" ++ rest))
        ∙ take-length-append authority (b' ' ∷ version)))

-- A CONNECT request for a host, which is not empty and has no space or carriage return, and a port
-- below 2³², is read as that host and the port modulo 65536: a port out of range is not refused.
pub parse_connect_authority-port :
    (host version rest : Bytes) (port : ℕ)
    → host ≢ []
    → Without b' ' host
    → Without b'\r' host
    → Without b'\r' version
    → port < 2 ^ 32
    → parse_connect_authority
        (connect_line (host ++ (b':' ∷ to_string port)) version ++ (codes "\r\n" ++ rest))
      ≡ some (host, port % 65536)
unfolding is_digit
parse_connect_authority-port host version rest port n s r v h =
    let ds = to_string-IsDigits port in
    let authority = host ++ (b':' ∷ to_string port) in
    let ws : Without b' ' authority =
      Without-append b' ' host _ s (refl, digits-Without b' ' (to_string port) refl ds) in
    let wr : Without b'\r' authority =
      Without-append b'\r' host _ r (refl, digits-Without b'\r' (to_string port) refl ds) in
    let wl : Without b'\r' (connect_line authority version) =
      Without-append b'\r' (codes "CONNECT ") _
        (refl, (refl, (refl, (refl, (refl, (refl, (refl, (refl, tt))))))))
        (Without-append b'\r' authority _ wr (refl, v)) in
    parse-authority authority version rest (append-cons host _ n) ws wl
    ∙ split_authority-port host port n h
