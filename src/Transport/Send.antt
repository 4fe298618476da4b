-- ===== src/Transport/Send.antt =====
-- src/transport/socket_utils.cpp: `send_all`. The loop is also that of `write_stdin` in
-- src/tls/openssl_process.cpp and of the relay in src/tls/https_mitm_proxy.cpp.
pub mod Whole
use network_proxy.Prelude.{
  ltb, ◌==◌, if◌then◌else◌, option_map, length, take, Bytes, ℕ, zero, suc, ◌+◌, ◌-◌, ◌%◌, ◌^◌, Bool,
  true, false, Option, none, some,
}

-- What a call takes of the bytes it is offered, by the offset they stand at and their number; `none`
-- is an error. The loop asks for `ask` of the bytes that are left, and gives the offset that it
-- reached, and whether that is the end; the result `none` means that its fuel ran out.
module _ (ask : ℕ → ℕ) (answer : ℕ → ℕ → Option ℕ) (data_length : ℕ) where
  unfoldable pub write_loop : ℕ → ℕ → Option (ℕ × Bool)
  write_loop zero total_sent = none
  write_loop (suc fuel) total_sent = elim (ltb total_sent data_length) [
    | false ↦ some (total_sent, true)
    | true ↦ elim (answer total_sent (ask (data_length - total_sent))) [
      | none ↦ some (total_sent, false)
      | some sent ↦ elim (sent == 0) [
        | true ↦ some (total_sent, false)
        | false ↦ write_loop fuel (total_sent + sent)
      ]
    ]
  ]

-- `static_cast<int>(size)`, where a negative number is 0: the loop ends at once for both.
unfoldable pub to_int : ℕ → ℕ
to_int size = let n = size % 2 ^ 32 in if ltb n (2 ^ 31) then n else 0

-- `send_all(socket, data, static_cast<int>(size))`: the bytes that `send` took, and the result.
unfoldable pub send_all : (ℕ → ℕ → Option ℕ) → Bytes → Option (Bytes × Bool)
unfolding write_loop to_int
send_all send payload =
    let n = to_int (length payload) in
    option_map (λ r. (take r.0 payload, r.1)) (write_loop (λ left. left) send n (suc n) 0)
