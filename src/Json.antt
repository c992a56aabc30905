-- ===== src/Json.antt =====
-- The values that the program keeps in `dict[str, Any]`: Python's None, bool, int, str, list and
-- dict, as JSON has them. A dict is its items in insertion order. Floats are not modelled.
use text.Mathlib.Text.{◌==◌ as str_eq}
use code_mate.Prelude.{
  ℕ, zero, suc, String, Bool, true, false, not, Option, none, some, if◌then◌else◌,
}

-- `negsuc n` is -(n + 1).
pub data ℤ : Type 0 where
  pos : ℕ → ℤ
  negsuc : ℕ → ℤ

mutual
  pub data Json : Type 0 where
    null : Json
    bool : Bool → Json
    num : ℤ → Json
    str : String → Json
    arr : Items → Json
    obj : Fields → Json

  pub data Items : Type 0 where
    nil : Items
    cons : Json → Items → Items

  pub data Fields : Type 0 where
    end : Fields
    field : String → Json → Fields → Fields

-- `d.get(key)`: a missing key gives None.
unfoldable pub get : String → Fields → Json
get k end = null
get k (field j v d) = if str_eq j k then v else get k d

-- `d.get(key, default)`
unfoldable pub get_default : String → Fields → Json → Json
get_default k end v = v
get_default k (field j w d) v = if str_eq j k then w else get_default k d v

-- `d[key] = value`, and each later item of `{**d, key: value}`
unfoldable pub put : String → Json → Fields → Fields
put k v end = field k v end
put k v (field j w d) = if str_eq j k then field j v d else field j w (put k v d)

-- `bool(value)`
abbrev pub truthy : Json → Bool
truthy null = false
truthy (bool b) = b
truthy (num (pos zero)) = false
truthy (num (pos (suc n))) = true
truthy (num (negsuc n)) = true
truthy (str s) = not (str_eq s "")
truthy (arr nil) = false
truthy (arr (cons x xs)) = true
truthy (obj end) = false
truthy (obj (field k v d)) = true

-- `value is True`
abbrev pub is_true : Json → Bool
is_true (bool b) = b
is_true v = false

-- `value == text` for a text
abbrev pub is_text : Json → String → Bool
is_text (str s) t = str_eq s t
is_text v t = false

-- `isinstance(value, Mapping)`, with the mapping
abbrev pub mapping_or_none : Json → Option Fields
mapping_or_none (obj d) = some d
mapping_or_none v = none

-- A dict or None, as a value.
abbrev pub from_mapping : Option Fields → Json
from_mapping none = null
from_mapping (some d) = obj d

-- `a or b` for a mapping or None
abbrev pub or_empty : Option Fields → Fields
or_empty none = end
or_empty (some d) = d
