-- ===== src/Lww/Server/Retry.antt =====
-- The retry loop of `broadcastToNode` in 3/server/server.go.
use tors_hw.Base.{
  ℕ, suc, ◌+◌, ◌/◌, ◌≡◌, ◌≢◌, refl, ap, ◌∙◌, List, [], ◌∷◌, ◌++◌, map, arith, All, length,
}
use tors_hw.Lww.Server.{Attempt, transport_error, status, delivered, crashed, broadcast_to_node}

abbrev pub Refused : ℕ → Type 0
Refused code = code / 100 ≢ 2

-- Attempts that are answered outside 2xx are made and leave the loop running.
broadcast_to_node-Refused :
    (codes : List ℕ) (n : ℕ) (rest : List Attempt)
    → All Refused codes
    → broadcast_to_node n (map status codes ++ rest) ≡ broadcast_to_node (n + length codes) rest
unfolding broadcast_to_node
broadcast_to_node-Refused [] n rest h = ap (λ m. broadcast_to_node m rest) (omega arith)
broadcast_to_node-Refused (c ∷ codes) n rest h =
    ground (arith, broadcast_to_node-Refused codes (n + 1) rest h.1, one_more)
  where
    one_more : n + 1 + length codes ≡ n + suc (length codes)
    one_more = omega arith

-- However many attempts are answered outside 2xx, the loop goes on. The first attempt that is
-- answered in 2xx ends it with success; the first transport error ends it with a crash. Neither
-- depends on what would follow.
pub broadcast_to_node_ends :
    (codes : List ℕ) (n code : ℕ) (later : List Attempt)
    → All Refused codes
    → code / 100 ≡ 2
    → (broadcast_to_node n (map status codes ++ status code ∷ later)
        ≡ delivered (n + length codes + 1))
      × (broadcast_to_node n (map status codes ++ transport_error ∷ later)
          ≡ crashed (n + length codes + 1))
broadcast_to_node_ends codes n code later refused accepted = (
  broadcast_to_node-Refused codes n (status code ∷ later) refused
      ∙ (unfold broadcast_to_node in ground arith),
  broadcast_to_node-Refused codes n (transport_error ∷ later) refused
      ∙ (unfold broadcast_to_node in refl),
)
