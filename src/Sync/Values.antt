-- ===== src/Sync/Values.antt =====
-- Datetimes and rows of app/services/sync.py: `_coerce_datetime`, `_as_utc` and the dictionary
-- `incoming`. What `datetime.fromisoformat` makes of a text, its `Z` replaced, is the parameter
-- `parse`.
use rebooter_droids.Base.{
  ℕ, String, Bool, true, false, Option, none, some, List, [], ◌∷◌, ◌==◌, if◌then◌else◌,
}
use rebooter_droids.Base.Json.{Json, null, str, Fields, get_field, truthy}
use rebooter_droids.Base.Result.{Result, ok, err}
use rebooter_droids.Base.Table.{put}
use rebooter_droids.Sync.Types.{Stamp, naive, aware, Value, plain, datetime, Row, Column}

-- `str` of a value, where it is one.
abbrev pub text_of : Option Value → Option String
text_of (some (plain (str s))) = some s
text_of _ = none

-- `value is None`
abbrev pub is_none : Option Value → Bool
is_none none = true
is_none (some (plain null)) = true
is_none (some _) = false

abbrev pub parsed : Option Stamp → Value
parsed none = plain null
parsed (some stamp) = datetime stamp

-- A truth test.
abbrev pub is_true : Value → Bool
is_true (plain v) = truthy v
is_true (datetime stamp) = true

abbrev pub instant : Stamp → ℕ
instant (naive t) = t
instant (aware t) = t

-- `_as_utc`; a value that is neither a datetime nor None raises an AttributeError.
unfoldable pub as_utc : {E : Type 0} → E → Value → Result E (Option ℕ)
as_utc raised (plain null) = ok none
as_utc raised (plain _) = err raised
as_utc raised (datetime stamp) = ok (some (instant stamp))

module _ (parse : String → Option Stamp) where
  -- `_coerce_datetime`, on a value of a payload
  unfoldable pub coerce_datetime : Json → Value
  coerce_datetime (str s) = parsed (parse s)
  coerce_datetime v = plain v

  abbrev pub incoming_value : Column → Json → Value
  incoming_value col v = if col.is_datetime then coerce_datetime v else plain v

  abbrev pub cons_value : Column → Option Json → Row → Row
  cons_value col none rest = rest
  cons_value col (some v) rest = (col.name, incoming_value col v) ∷ rest

  -- The dictionary `incoming`: the columns that the payload has.
  unfoldable pub incoming_of : List Column → Fields → Row
  incoming_of [] payload = []
  incoming_of (col ∷ cols) payload =
      cons_value col (get_field col.name payload) (incoming_of cols payload)

-- The loop of `setattr`, which leaves the primary key out.
unfoldable pub set_all : Row → Row → Row
set_all [] row = row
set_all ((name, value) ∷ incoming) row =
    set_all incoming (if name == "id" then row else put name value row)
