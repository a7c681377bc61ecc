-- ===== src/Database/Errors.antt =====
-- What a service method throws or returns.
use node_vms.Prelude.{ℕ, String, List}

-- The reasons of src/scheduling/scheduling.service.ts, each by the kind of its text with the
-- instants that the text shows.
pub data Reason : Type 0 where
  conflicting_booking : ℕ → ℕ → Reason
  active_trip_from : ℕ → Reason
  overlapping_trip : Reason
  under_maintenance : Reason
  maintenance_on : ℕ → Reason
  assigned_until : ℕ → Reason
  assigned_with_no_end : Reason
  driver_overlapping_trip : Reason
  driver_on_active_trip : Reason

-- Nest's exceptions with their messages, `unavailable` being the bad request that lists reasons.
-- The last three are what Prisma throws (P2025, P2002, P2003), which the exception filter turns
-- into status 500.
pub data Error : Type 0 where
  bad_request unauthorized forbidden not_found conflict : String → Error
  unavailable : String → List Reason → Error
  record_not_found unique_violation foreign_key_violation : Error

pub data Result {ℓ} (A : Type ℓ) : Type ℓ where
  ok : A → Result A
  err : Error → Result A
