-- ===== src/Time.antt =====
-- Python's `datetime` with a fixed UTC offset: the moment, in microseconds since
-- 0001-01-01T00:00:00 UTC, and the offset in seconds. A naive datetime has no offset, and its
-- moment is its clock reading. The program compares only datetimes that it has found to be aware.
pub mod Iso
use nimly_manager.Base.{
  ℕ, suc, ◌+◌, ◌-◌, ◌*◌, Bool, not, Option, none, some, is_some, leb, ltb, if◌then◌else◌,
}
use nimly_manager.Base.Int.{ℤ, pos, negsuc}

pub record DateTime : Type 0 where
  pub instant : ℕ
  pub offset : Option ℤ

-- value.tzinfo is None or value.utcoffset() is None
unfoldable pub is_naive : DateTime → Bool
is_naive d = not (is_some d.offset)

abbrev shift : ℕ → Option ℤ → ℕ
shift t none = t
shift t (some (pos o)) = t + 1000000 * o
shift t (some (negsuc o)) = t - 1000000 * suc o

-- The clock reading, in microseconds since 0001-01-01T00:00:00.
unfoldable pub local_time : DateTime → ℕ
local_time d = shift d.instant d.offset

-- a >= b, for aware datetimes
unfoldable pub reached : DateTime → DateTime → Bool
reached a b = leb b.instant a.instant

-- The first clock reading past datetime.max, 10000-01-01T00:00:00.
abbrev pub end_of_time : ℕ
end_of_time = 315537897600000000

-- now + timedelta; `none` where it raises OverflowError
unfoldable pub plus : DateTime → ℕ → Option DateTime
unfolding local_time
plus d micros =
    if ltb (local_time d + micros) end_of_time
    then some (record d { instant = d.instant + micros })
    else none

abbrev pub minute : ℕ
minute = 60000000

abbrev pub hour : ℕ
hour = 3600000000
