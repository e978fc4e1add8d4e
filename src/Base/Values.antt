-- ===== src/Base/Values.antt =====
-- The scalar types of the tables. What the program only compares or passes on is a number that stands
-- for it: a UUID, an address, a digest, a name. A time is in microseconds since the epoch.
use Prim.Native.Nat.{ℕ, ◌*◌}

abbrev pub Uuid : Type 0
Uuid = ℕ

abbrev pub Time : Type 0
Time = ℕ

abbrev pub Ip : Type 0
Ip = ℕ

abbrev pub Hash : Type 0
Hash = ℕ

abbrev pub Name : Type 0
Name = ℕ

-- `timedelta(seconds=n)`
abbrev pub seconds : ℕ → ℕ
seconds n = n * 1000000
