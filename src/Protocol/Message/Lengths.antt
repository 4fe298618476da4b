-- ===== src/Protocol/Message/Lengths.antt =====
-- The lengths that a rebuilt head announces.
use network_proxy.Prelude.{
  Bool-cases, is_empty, All, All-append, Bytes, codes, ends_with_char, to_lower_byte, getlines,
  to_string, is_digit, to_string-IsDigits, Without, Without-append, digits-Without,
  getlines-Without, pop_back-Without, differs, all_differ, ℕ, ◌≡◌, refl, sym, ◌∙◌, inl, inr, Bool,
  true, false, List, [], ◌∷◌, ◌++◌, map,
}
use mathlib.Core.List.{Mem, mem-cons_self, mem-cons_of_mem, mem-append_right}
use network_proxy.Protocol.Message.{
  drop_cr, starts_with_ignore_case, split_lines, content_length_line, rebuild_line,
  has_content_length, join_lines, rebuild_headers_with_content_length,
}

-- A line that announces a length.
abbrev pub announces : Bytes → Bool
announces line = starts_with_ignore_case line (codes "Content-Length:")

-- Every line that announces a length announces this one.
abbrev pub Announce : ℕ → List Bytes → Type 0
Announce n = All (λ line. announces line ≡ true → line ≡ content_length_line n)

content_length_line-announces : (n : ℕ) → announces (content_length_line n) ≡ true
unfolding starts_with_ignore_case to_lower_byte
content_length_line-announces n = refl

rebuild_line-announces : (n : ℕ) (line : Bytes) → announces (rebuild_line n line) ≡ announces line
unfolding rebuild_line
rebuild_line-announces n line = elim (Bool-cases (announces line)) [
  | inl b ↦ rw (rebuild_line, b) (content_length_line-announces n)
  | inr b ↦ rw (rebuild_line, b) b
]

rebuild_line-Announce :
    (n : ℕ) (line : Bytes)
    → announces (rebuild_line n line) ≡ true
    → rebuild_line n line ≡ content_length_line n
unfolding rebuild_line
rebuild_line-Announce n line h =
    let b : announces line ≡ true = sym (rebuild_line-announces n line) ∙ h in rw (rebuild_line, b)

map-Announce : (n : ℕ) (lines : List Bytes) → Announce n (map (rebuild_line n) lines)
map-Announce n [] = tt
map-Announce n (line ∷ lines) = (rebuild_line-Announce n line, map-Announce n lines)

-- Where a line announces a length, one of the rebuilt lines is the announcement.
map-Mem :
    (n : ℕ) (lines : List Bytes)
    → has_content_length lines ≡ true
    → Mem (content_length_line n) (map (rebuild_line n) lines)
unfolding has_content_length rebuild_line
map-Mem n [] h = absurd (cc h)
map-Mem n (line ∷ lines) h = elim (Bool-cases (announces line)) [
  | inl b ↦ rw (rebuild_line, b) mem-cons_self
  | inr b ↦
      mem-cons_of_mem (rebuild_line n line) (map-Mem n lines (rw (has_content_length, b) at h))
]

drop_cr-Without : (line : Bytes) → Without b'\n' line → Without b'\n' (drop_cr line)
drop_cr-Without line h = elim (Bool-cases (ends_with_char line b'\r')) [
  | inl b ↦ rw b (pop_back-Without b'\n' line h)
  | inr b ↦ rw b h
]

map-drop_cr :
    (lines : List Bytes) → All (Without b'\n') lines → All (Without b'\n') (map drop_cr lines)
map-drop_cr [] h = tt
map-drop_cr (line ∷ lines) h = (drop_cr-Without line h.0, map-drop_cr lines h.1)

split_lines-Without : (text : Bytes) → All (Without b'\n') (split_lines text)
unfolding split_lines
split_lines-Without text = map-drop_cr (getlines text) (getlines-Without text)

content_length_line-Without : (n : ℕ) → Without b'\n' (content_length_line n)
unfolding is_digit differs
content_length_line-Without n =
    Without-append b'\n' (codes "Content-Length: ") (to_string n)
      (all_differ b'\n' (codes "Content-Length: ") refl)
      (digits-Without b'\n' (to_string n) refl (to_string-IsDigits n))

map-Without :
    (n : ℕ) (lines : List Bytes)
    → All (Without b'\n') lines
    → All (Without b'\n') (map (rebuild_line n) lines)
unfolding rebuild_line
map-Without n [] h = tt
map-Without n (line ∷ lines) h = elim (Bool-cases (announces line)) [
  | inl b ↦ rw (rebuild_line, b) (content_length_line-Without n, map-Without n lines h.1)
  | inr b ↦ rw (rebuild_line, b) (h.0, map-Without n lines h.1)
]

-- The head that is sent with a patched body is made of lines of which one is `Content-Length: ` and
-- the size of the body, and each other one that announces a length announces this one too, whatever
-- the old head announced, where it has a line.
pub rebuild-Announce :
    (head : Bytes) (n : ℕ)
    → is_empty (split_lines head) ≡ false
    → (lines : List Bytes) × (rebuild_headers_with_content_length head n ≡ join_lines lines)
      × All (Without b'\n') lines
      × Mem (content_length_line n) lines
      × Announce n lines
unfolding rebuild_headers_with_content_length
rebuild-Announce head n h =
    let rebuilt = map (rebuild_line n) (split_lines head) in
    let w = map-Without n (split_lines head) (split_lines-Without head) in
    elim (Bool-cases (has_content_length (split_lines head))) [
      | inl b ↦ (
        rebuilt,
        rw (rebuild_headers_with_content_length, b),
        w,
        map-Mem n (split_lines head) b,
        map-Announce n (split_lines head),
      )
      | inr b ↦ (
        rebuilt ++ content_length_line n ∷ [],
        rw (rebuild_headers_with_content_length, b, h),
        All-append _ rebuilt _ w (content_length_line-Without n, tt),
        mem-append_right rebuilt mem-cons_self,
        All-append _ rebuilt _ (map-Announce n (split_lines head)) ((λ e. refl), tt),
      )
    ]
