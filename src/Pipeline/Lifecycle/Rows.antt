-- ===== src/Pipeline/Lifecycle/Rows.antt =====
-- The states in which ai_request_service.py can leave a row of `ai_requests`.
use api_gateways.Base.{
  ℕ, String, true, Option, none, some, List, [], ◌∷◌, contains, str_eq, ◌≡◌, ◌≢◌, ◌⊎◌, inl, inr,
  arith, All, Bool-cases,
}
use api_gateways.Pipeline.World.{World, RequestRow, update_request, update_ai_request_status}

-- The states of a request that is on its way, and those of one that is closed.
abbrev pub open_states : List String
open_states = "received" ∷ "streaming" ∷ []

abbrev pub closed_states : List String
closed_states = "blocked" ∷ "completed" ∷ "failed" ∷ []

-- A row is open, or closed with the time at which it was.
abbrev pub IsRow : RequestRow → Type 0
IsRow r =
    (contains r.status open_states ≡ true)
    ⊎ ((contains r.status closed_states ≡ true) × (r.completed_at ≢ none))

abbrev pub AreRows : World → Type 0
AreRows w = All IsRow w.requests

pub update_request-All :
    (id : String) (f : RequestRow → RequestRow) (rs : List RequestRow)
    → ((r : RequestRow) → IsRow r → IsRow (f r))
    → All IsRow rs
    → All IsRow (update_request id f rs)
unfolding update_request
update_request-All id f [] k h = tt
update_request-All id f (r ∷ rs) k h = elim (Bool-cases (str_eq r.request_id id)) [
  | inl same ↦ rw same (k r h.0, update_request-All id f rs k h.1)
  | inr differ ↦ rw differ (h.0, update_request-All id f rs k h.1)
]

pub opened :
    (id status : String) (d : Option String) (w : World)
    → contains status open_states ≡ true
    → AreRows w
    → AreRows (update_ai_request_status id status none d w)
unfolding update_ai_request_status
opened id status d w s h = update_request-All id _ w.requests (λ r _. inl s) h

pub closed :
    (id status : String) (now : ℕ) (d : Option String) (w : World)
    → contains status closed_states ≡ true
    → AreRows w
    → AreRows (update_ai_request_status id status (some now) d w)
unfolding update_ai_request_status
closed id status now d w s h =
    update_request-All id _ w.requests (λ r _. inr (s, λ e. ground (arith, e))) h
