-- ===== src/Requests/Progress.antt =====
-- The requests for support as a state machine: what any request to src/g_one/api.py does to one of them.
pub mod Steps
pub mod Moves
use project_g_one.Prelude.{◌≡◌, ℕ, String, Bool, ◌&&◌, ◌==◌, List, Option, none, some, find_first}
use project_g_one.Models.{SupportRequest}

-- A request for support is pending until it is accepted, denied or expired, and an accepted one can be
-- ended. Nothing else of it changes.
pub data Step : Option SupportRequest → Option SupportRequest → Type 0 where
  requested : (r : SupportRequest) → r.state ≡ "pending" → Step none (some r)
  accepted :
      (r : SupportRequest) (at : ℕ)
      → r.state ≡ "pending"
      → Step (some r) (some (record r { state = "accepted"; decided_at = some at }))
  denied :
      (r : SupportRequest) (at : ℕ)
      → r.state ≡ "pending"
      → Step (some r) (some (record r { state = "denied"; decided_at = some at }))
  expired :
      (r : SupportRequest)
      → r.state ≡ "pending"
      → Step (some r) (some (record r { state = "expired" }))
  ended :
      (r : SupportRequest) (at : ℕ)
      → r.state ≡ "accepted"
      → Step (some r) (some (record r { state = "ended"; ended_at = some at }))

pub data Follows (first : Option SupportRequest) : Option SupportRequest → Type 0 where
  stays : Follows first first
  goes :
      {middle last : Option SupportRequest}
      → Follows first middle
      → Step middle last
      → Follows first last

-- The request for support with an id, in a tenant.
abbrev pub found : String → String → List SupportRequest → Option SupportRequest
found tenant_id id = find_first (λ r. r.tenant_id == tenant_id && r.id == id)
