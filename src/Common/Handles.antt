-- ===== src/Common/Handles.antt =====
-- The handles and sockets that are open, as a list of their numbers.
use network_proxy.Prelude.{
  ◌==◌, if◌then◌else◌, ℕ, ◌+◌, ◌-◌, ◌≡◌, Option, none, some, List, [], ◌∷◌, arith,
}

-- `CloseHandle` and `closesocket`
unfoldable pub remove : ℕ → List ℕ → List ℕ
remove handle [] = []
remove handle (h ∷ handles) =
    let rest = remove handle handles in if h == handle then handles else h ∷ rest

-- `close_socket_if_valid`, where `none` is `INVALID_SOCKET`.
abbrev pub close_socket_if_valid : Option ℕ → List ℕ → List ℕ
close_socket_if_valid none opened = opened
close_socket_if_valid (some socket_handle) opened = remove socket_handle opened

-- A call that gives a handle, or fails.
abbrev pub open_socket : Option ℕ → List ℕ → List ℕ
open_socket none opened = opened
open_socket (some socket_handle) opened = socket_handle ∷ opened

-- How often a handle stands in a list.
unfoldable pub count : ℕ → List ℕ → ℕ
count h [] = 0
count h (k ∷ handles) = (if h == k then 1 else 0) + count h handles

pub count-remove :
    (h k : ℕ) (handles : List ℕ)
    → count h (remove k handles) ≡ count h handles - (if h == k then 1 else 0)
unfolding count remove
count-remove h k [] = ground arith
count-remove h k (j ∷ handles) = ground (arith, count-remove h k handles)

-- How often a handle stands in an optional one.
unfoldable pub held_in : ℕ → Option ℕ → ℕ
held_in h none = 0
held_in h (some k) = if h == k then 1 else 0

pub count-close :
    (h : ℕ) (o : Option ℕ) (opened : List ℕ)
    → count h (close_socket_if_valid o opened) ≡ count h opened - held_in h o
unfolding held_in
count-close h none opened = omega arith
count-close h (some k) opened = count-remove h k opened

pub count-open :
    (h : ℕ) (o : Option ℕ) (opened : List ℕ)
    → count h (open_socket o opened) ≡ count h opened + held_in h o
unfolding held_in count
count-open h none opened = omega arith
count-open h (some k) opened = ground arith

-- A handle is opened, and then it is closed.
pub count-one : (h a : ℕ) (opened : List ℕ) → count h (remove a (a ∷ opened)) ≡ count h opened
unfolding count
count-one h a opened = ground (arith, count-remove h a (a ∷ opened))

-- Two handles are opened, and then they are closed.
pub count-pair :
    (h a b : ℕ) (opened : List ℕ) → count h (remove b (remove a (b ∷ a ∷ opened))) ≡ count h opened
unfolding count
count-pair h a b opened =
    ground (arith, count-remove h b (remove a (b ∷ a ∷ opened)), count-remove h a (b ∷ a ∷ opened))
