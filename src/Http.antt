-- ===== src/Http.antt =====
-- src/protocol/http_types.h: requests, responses and the header map. The map is a list of pairs in
-- the order in which a `for` over it visits them; a new name goes to the end.
use network_proxy.Prelude.{if◌then◌else◌, Bytes, eqb, ℕ, Option, none, some, List, [], ◌∷◌}

abbrev pub HeaderMap : Type 0
HeaderMap = List (Bytes × Bytes)

-- `headers.find(name)`, with the value at the iterator.
unfoldable pub find_header : HeaderMap → Bytes → Option Bytes
find_header [] name = none
find_header ((n, v) ∷ headers) name = if eqb n name then some v else find_header headers name

-- `headers[name] = value`
unfoldable pub set_header : HeaderMap → Bytes → Bytes → HeaderMap
set_header [] name value = (name, value) ∷ []
set_header ((n, v) ∷ headers) name value =
    let rest = set_header headers name value in
    if eqb n name then (n, value) ∷ headers else (n, v) ∷ rest

pub record HttpRequest : Type 0 where
  pub method : Bytes
  pub target : Bytes
  pub headers : HeaderMap
  pub body : Bytes

pub record HttpResponse : Type 0 where
  pub status_code : ℕ
  pub headers : HeaderMap
  pub body : Bytes
