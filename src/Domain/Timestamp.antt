-- ===== src/Domain/Timestamp.antt =====
-- `datetime.timestamp()` of an aware time, as `_timestamp` of storage/memories.py and of
-- services/compaction.py sorts by it.
use project_memory_hub.Common.{ℕ, zero, suc, ◌+◌, ◌-◌, ◌*◌, ◌^◌, ltb, leb, if◌then◌else◌}
use project_memory_hub.Tokens.{nearest}
use project_memory_hub.Domain.{Instant}

-- Midnight of 1970-01-01, in microseconds since year 1.
abbrev pub unix_epoch : ℕ
unix_epoch = 62135596800000000

-- The first of the powers of two from `k` on, `rounds` of them, that makes `n / d` fill 53 bits.
unfoldable pub scale : ℕ → ℕ → ℕ → ℕ → ℕ
scale zero k n d = k
scale (suc rounds) k n d =
    let rest = scale rounds (k + 1) n d in if ltb (n * 2 ^ k) (d * 2 ^ 52) then rest else k

-- The float of `micros / 10 ** 6`, times 2 ^ 128: every microsecond has its 53 bits before that.
abbrev pub float_seconds : ℕ → ℕ
float_seconds micros =
    let k = scale 128 0 micros (10 ^ 6) in nearest (micros * 2 ^ k) (10 ^ 6) * 2 ^ (128 - k)

-- The float, times 2 ^ 128 and with 2 ^ 200 added: no instant is as far from 1970.
unfoldable pub float_timestamp : Instant → ℕ
unfolding scale nearest
float_timestamp value =
    if leb unix_epoch value
    then 2 ^ 200 + float_seconds (value - unix_epoch)
    else 2 ^ 200 - float_seconds (unix_epoch - value)
