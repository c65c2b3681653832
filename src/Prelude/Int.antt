-- ===== src/Prelude/Int.antt =====
-- Python's integers, as far as settings hold them.
use Prim.Native.Nat.{ℕ, suc, ◌+◌, ◌-◌, ◌*◌}

-- `negsuc n` is -(n + 1).
pub data ℤ : Type 0 where
  pos : ℕ → ℤ
  negsuc : ℕ → ℤ

-- Timestamps are microseconds since the epoch: the resolution of a PostgreSQL `timestamptz`.
abbrev pub second : ℕ
second = 1_000_000

-- `now() + ttl * interval '1 second'`. A time before the epoch reads 0: it is in the past as well.
unfoldable pub add_seconds : ℕ → ℤ → ℕ
add_seconds now (pos n) = now + n * second
add_seconds now (negsuc n) = now - suc n * second
