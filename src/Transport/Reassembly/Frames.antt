-- ===== src/Transport/Reassembly/Frames.antt =====
-- How the buffer cuts a stream into HTTP messages.
use network_proxy.Transport.Reassembly.{
  size_mod, blank_line, parse_content_length, message_length, try_take_http_message,
}
use network_proxy.Prelude.{
  ltb, Option-cases, length, take, drop, length-append, take-append-drop, length-take,
  take-length-append, drop-length-append, take_add-append, drop_add-append, Bytes, find,
  find-le-length, find-append_right, ℕ, ◌+◌, ◌%◌, ◌≤◌, ◌<◌, ◌≡◌, refl, inl, inr, true, false, none,
  some, ◌++◌, arith,
}

-- A message taken and the buffer left behind it are the buffer there was.
pub try_take-conserves :
    (buffer : Bytes) {message rest : Bytes}
    → try_take_http_message buffer ≡ some (message, rest)
    → message ++ rest ≡ buffer
unfolding try_take_http_message
try_take-conserves buffer {message} {rest} h = elim (Option-cases (find buffer blank_line)) [
  | inl n ↦ absurd (cc (rw (n, try_take_http_message) at h))
  | inr (i, f) ↦ ground (arith, f, h, take-append-drop (message_length buffer i) buffer)
]

-- A head, up to and with its blank line, that announces a body, and such a body. The whole is
-- shorter than the range of `std::size_t`.
pub record IsFramed (head body : Bytes) : Type 0 where
  pub head_end : ℕ
  pub ends : find head blank_line ≡ some head_end
  pub whole : length head ≡ head_end + 4
  pub announces : parse_content_length head ≡ length body
  pub fits : length head + length body < size_mod

module _ (head body : Bytes) (framed : IsFramed head body) where
  open framed use {head_end, ends, whole, announces, fits}

  found_end : (more : Bytes) → find (head ++ more) blank_line ≡ some head_end
  found_end more = find-append_right head more blank_line head_end ends (λ e. cc)

  length_is : (more : Bytes) → message_length (head ++ more) head_end ≡ length head + length body
  unfolding message_length
  length_is more = rw (← whole, take-length-append head more, announces) (omega arith)

  pub try_take_whole :
      (more : Bytes) → try_take_http_message (head ++ (body ++ more)) ≡ some (head ++ body, more)
  unfolding try_take_http_message
  try_take_whole more =
      let enough : ltb (length (head ++ (body ++ more))) (length head + length body) ≡ false =
        ground (arith, length-append head (body ++ more), length-append body more) in
      rw (
        try_take_http_message,
        found_end (body ++ more),
        length_is (body ++ more),
        enough,
        take_add-append head (body ++ more) (length body),
        take-length-append body more,
        drop_add-append head (body ++ more) (length body),
        drop-length-append body more,
      )

  pub try_take_part :
      (part : Bytes) → length part < length body → try_take_http_message (head ++ part) ≡ none
  unfolding try_take_http_message
  try_take_part part h =
      let short : ltb (length (head ++ part)) (length head + length body) ≡ true =
        ground (arith, length-append head part) in
      rw (try_take_http_message, found_end part, length_is part, short)

-- The buffer cuts at the announced length: with the whole body there, and whatever follows, the
-- message is taken and the rest is left; with a part of the body that is too short, nothing is.
pub try_take-frames :
    (head body more part : Bytes)
    → IsFramed head body
    → length part < length body
    → (try_take_http_message (head ++ (body ++ more)) ≡ some (head ++ body, more))
      × (try_take_http_message (head ++ part) ≡ none)
try_take-frames head body more part framed short =
    (try_take_whole head body framed more, try_take_part head body framed part short)

message_length_lem :
    (buffer : Bytes) (head_end : ℕ)
    → message_length buffer head_end
      ≡ (head_end + 4 + parse_content_length (take (head_end + 4) buffer)) % size_mod
unfolding message_length
message_length_lem buffer head_end = refl

-- An announced length so large that the sum wraps round in `std::size_t` cuts inside the head: the
-- message taken ends before its own blank line does, and nothing waits for a body.
pub try_take-wraps :
    (buffer : Bytes) (head_end n : ℕ)
    → find buffer blank_line ≡ some head_end
    → parse_content_length (take (head_end + 4) buffer) ≡ n
    → n < size_mod
    → size_mod ≤ head_end + 4 + n
    → head_end + 4 < size_mod
    → (message : Bytes) × (rest : Bytes) × (try_take_http_message buffer ≡ some (message, rest))
      × (length message < head_end + 4)
unfolding try_take_http_message
try_take-wraps buffer head_end n f c below wraps small = (
  take cut buffer,
  drop cut buffer,
  rw (try_take_http_message, f, at_cut, enough),
  omega (arith, length-take cut buffer),
)
  where
    cut : ℕ
    cut = (head_end + 4 + n) % size_mod

    at_cut : message_length buffer head_end ≡ cut
    at_cut = rw (message_length_lem buffer head_end) (rw c)

    enough : ltb (length buffer) cut ≡ false
    enough = ground (arith, find-le-length buffer blank_line head_end f)
