-- ===== src/Database/Iso.antt =====
-- The stored text of a timestamp. `datetime.isoformat()` leaves out a fraction of zero microseconds,
-- so that "…:00Z" and "…:00.000001Z" are both stored, and "Z" stands above "." in the order of texts.
use project_memory_hub.Common.{ℕ, ◌+◌, ◌/◌, ◌%◌, ◌<◌, ◌==◌, if◌then◌else◌, arith}
use project_memory_hub.Domain.{Instant}

-- Where the text of an instant stands in the order of texts: within its second, the whole second
-- comes last.
unfoldable pub iso_rank : Instant → ℕ
iso_rank t = if t % 1000000 == 0 then t + 1000000 else t

-- Texts of two different seconds are ordered as their instants are.
pub iso_rank-lt_of_seconds : (a b : Instant) → a / 1000000 < b / 1000000 → iso_rank a < iso_rank b
unfolding iso_rank
iso_rank-lt_of_seconds a b h = ground arith
