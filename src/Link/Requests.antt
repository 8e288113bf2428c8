-- ===== src/Link/Requests.antt =====
-- The reads that wait for the device: `ReadRequest` and the map `read_requests` of pcie_link_mcmq.h.
use mcmqhost.Prelude.{ℕ, Bool, false, List, [], ◌∷◌, Option, none, some, ◌==◌, if◌then◌else◌}

-- `ReadRequest`; `buf` is what the caller's buffer holds.
pub record ReadRequest : Type 0 where
  pub id : ℕ
  pub buf : List ℕ
  pub buflen : ℕ
  pub len : ℕ
  pub completed : Bool

unfoldable pub find : ℕ → List (ℕ × ReadRequest) → Option ReadRequest
find id [] = none
find id ((k, r) ∷ m) = if k == id then some r else find id m

unfoldable pub erase : ℕ → List (ℕ × ReadRequest) → List (ℕ × ReadRequest)
erase id [] = []
erase id ((k, r) ∷ m) = if k == id then m else (k, r) ∷ erase id m

unfoldable pub update :
    ℕ → (ReadRequest → ReadRequest) → List (ℕ × ReadRequest) → List (ℕ × ReadRequest)
update id f [] = []
update id f ((k, r) ∷ m) = if k == id then (k, f r) ∷ m else (k, r) ∷ update id f m

abbrev pub new_request : ReadRequest
new_request = record { id = 0; buf = []; buflen = 0; len = 0; completed = false }

-- `emplace` keeps a request that is there.
unfoldable pub emplace : ℕ → List (ℕ × ReadRequest) → List (ℕ × ReadRequest)
unfolding find
emplace id m = elim (find id m) [ none ↦ (id, new_request) ∷ m | some r ↦ m ]
