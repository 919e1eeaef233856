-- ===== src/Json.antt =====
-- JSON values as Python's `json` reads them, for the JSONB columns of db/models.py.
use travel_web_api.Prelude.{
  if◌then◌else◌, ◌==◌, nat_eq, string_eq, String, Bool, true, false, Option, none, some, List, [],
  ◌∷◌,
}
use travel_web_api.Prelude.Int.{ℤ}

mutual
  -- `real` holds a float by its printed digits.
  pub data Json : Type 0 where
    null : Json
    bool : Bool → Json
    num : ℤ → Json
    real : String → Json
    text : String → Json
    arr : Items → Json
    obj : Fields → Json

  pub data Items : Type 0 where
    nil : Items
    cons : Json → Items → Items

  pub data Fields : Type 0 where
    end : Fields
    field : String → Json → Fields → Fields

-- A dict with string keys, in insertion order.
abbrev pub JsonObject : Type 0
JsonObject = List (String × Json)

-- `d.get(k)`
abbrev pub get : JsonObject → String → Option Json
get [] k = none
get ((j, v) ∷ d) k = if j == k then some v else get d k

-- `d[k] = v`
abbrev pub put : JsonObject → String → Json → JsonObject
put [] k v = (k, v) ∷ []
put ((j, w) ∷ d) k v = if j == k then (k, v) ∷ d else (j, w) ∷ put d k v

-- `d.pop(k, None)`
abbrev pub pop : JsonObject → String → JsonObject
pop [] k = []
pop ((j, w) ∷ d) k = if j == k then d else (j, w) ∷ pop d k

-- `{**d, **e}`
abbrev pub merge : JsonObject → JsonObject → JsonObject
merge d [] = d
merge d ((k, v) ∷ e) = merge (put d k v) e

-- `isinstance(value, (str, int, float, bool))`
abbrev pub is_scalar : Json → Bool
is_scalar null = false
is_scalar (arr xs) = false
is_scalar (obj fs) = false
is_scalar _ = true

-- `d.get(k, v)`, of what `get` found
abbrev pub or_json : Option Json → Json → Json
or_json none v = v
or_json (some w) v = w
