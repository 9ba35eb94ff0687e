-- ===== src/Prisma/Native.antt =====
-- packages/prisma/src/index.ts over the generators of src/lib.rs.
use rivid.Common.{ℕ, List, Bytes, All}
use rivid.Js.{Outcome, returns, throws}
use rivid.Binding.Batches.{IsStamped}

-- All the identifiers that an outcome holds carry the timestamp.
abbrev HoldsStamped {ℓ} : {S : Type ℓ} → ℕ → Outcome (List Bytes × S) → Type 0
HoldsStamped ts (returns (ids, t)) = All (IsStamped ts) ids
HoldsStamped ts (throws e) = Unit
