-- ===== src/Capture/Packet/Stores.antt =====
-- What a store into a packet changes, and what it leaves.
use network_proxy.Prelude.{
  length, get_or, Bytes, substr, ℕ, zero, suc, ◌+◌, ◌≤◌, ◌<◌, ◌≡◌, refl, ap, [], ◌∷◌, arith,
}
use network_proxy.Capture.Packet.{write_at}

pub length-write_at : (i : ℕ) (b p : Bytes) → length (write_at i b p) ≡ length p
unfolding write_at
length-write_at i b [] = refl
length-write_at zero [] (c ∷ p) = refl
length-write_at zero (x ∷ b) (c ∷ p) = ap suc (length-write_at zero b p)
length-write_at (suc i) b (c ∷ p) = ap suc (length-write_at i b p)

-- In front of the store.
pub get_or-write_before :
    (i : ℕ) (b p : Bytes) (j d : ℕ) → j < i → get_or (write_at i b p) j d ≡ get_or p j d
unfolding write_at
get_or-write_before i b [] j d h = refl
get_or-write_before zero b (c ∷ p) j d h = absurd (omega arith)
get_or-write_before (suc i) b (c ∷ p) zero d h = refl
get_or-write_before (suc i) b (c ∷ p) (suc j) d h = get_or-write_before i b p j d (omega arith)

-- In the store.
pub get_or-write_in :
    (i : ℕ) (b p : Bytes) (j d : ℕ)
    → j < length b
    → i + length b ≤ length p
    → get_or (write_at i b p) (i + j) d ≡ get_or b j d
unfolding write_at
get_or-write_in i b [] j d h l = absurd (omega arith)
get_or-write_in zero [] (c ∷ p) j d h l = absurd (omega arith)
get_or-write_in zero (x ∷ b) (c ∷ p) zero d h l = refl
get_or-write_in zero (x ∷ b) (c ∷ p) (suc j) d h l =
    let e : zero + suc j ≡ suc (zero + j) = omega arith in
    rw e (get_or-write_in zero b p j d (omega arith) (omega arith))
get_or-write_in (suc i) b (c ∷ p) j d h l =
    let e : suc i + j ≡ suc (i + j) = omega arith in
    rw e (get_or-write_in i b p j d h (omega arith))

-- The stored bytes, read back at once.
pub substr-write_at :
    (i : ℕ) (b p : Bytes) → i + length b ≤ length p → substr (write_at i b p) i (length b) ≡ b
unfolding write_at
substr-write_at zero [] p h = refl
substr-write_at zero (x ∷ b) [] h = absurd (omega arith)
substr-write_at zero (x ∷ b) (c ∷ p) h = ap (◌∷◌ x) (substr-write_at zero b p (omega arith))
substr-write_at (suc i) b [] h = absurd (omega arith)
substr-write_at (suc i) b (c ∷ p) h = substr-write_at i b p (omega arith)
