-- ===== src/Base/Time.antt =====
-- Instants and spans of time. A datetime is the number of microseconds since 0001-01-01 00:00 UTC,
-- the first instant that Python's `datetime` has; it is a Monday. Spans are microseconds too.
use Prim.Native.Nat.{ℕ, ◌*◌}

abbrev pub seconds : ℕ → ℕ
seconds n = n * 1000000

abbrev pub minutes : ℕ → ℕ
minutes n = n * 60000000

abbrev pub day : ℕ
day = 86400000000
