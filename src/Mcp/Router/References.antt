-- ===== src/Mcp/Router/References.antt =====
-- Which references to other documents `find_external_ref` finds in a schema.
use code_mate.Prelude.{
  ◌≡◌, refl, ◌∙◌, String, Bool, false, not, ◌||◌, is_some, Option, none, some, arith,
}
use code_mate.Text.{starts_with}
use code_mate.Json.{
  Json, Items, Fields, null, bool, num, str, arr, obj, nil, cons, end, field, get, is_text,
}
use code_mate.Mcp.Router.Arguments.{
  nonempty, ref_or, found_or, find_external_ref, find_in_values, find_in_items,
}

-- A text that does not begin with "#".
abbrev pub is_external : Json → Bool
is_external (str s) = not (starts_with s "#")
is_external v = false

-- A dict somewhere in the value has an external `$ref`.
unfoldable mutual
  pub has_external_ref : Json → Bool
  has_external_ref (obj d) = is_external (get "$ref" d) || values_have_external_ref d
  has_external_ref (arr xs) = items_have_external_ref xs
  has_external_ref v = false

  pub values_have_external_ref : Fields → Bool
  values_have_external_ref end = false
  values_have_external_ref (field k v d) = has_external_ref v || values_have_external_ref d

  pub items_have_external_ref : Items → Bool
  items_have_external_ref nil = false
  items_have_external_ref (cons v xs) = has_external_ref v || items_have_external_ref xs

-- A dict somewhere in the value has the empty text as its `$ref`.
unfoldable mutual
  pub has_empty_ref : Json → Bool
  has_empty_ref (obj d) = is_text (get "$ref" d) "" || values_have_empty_ref d
  has_empty_ref (arr xs) = items_have_empty_ref xs
  has_empty_ref v = false

  pub values_have_empty_ref : Fields → Bool
  values_have_empty_ref end = false
  values_have_empty_ref (field k v d) = has_empty_ref v || values_have_empty_ref d

  pub items_have_empty_ref : Items → Bool
  items_have_empty_ref nil = false
  items_have_empty_ref (cons v xs) = has_empty_ref v || items_have_empty_ref xs

ref_or-is_some :
    (v : Json) (rest : Option String)
    → is_text v "" ≡ false
    → nonempty rest ≡ rest
    → is_some (nonempty (ref_or v rest)) ≡ (is_external v || is_some rest)
unfolding ref_or
ref_or-is_some (str s) rest h r = ground arith
ref_or-is_some null rest h r = rw r refl
ref_or-is_some (bool b) rest h r = rw r refl
ref_or-is_some (num n) rest h r = rw r refl
ref_or-is_some (arr xs) rest h r = rw r refl
ref_or-is_some (obj d) rest h r = rw r refl

found_or-is_some :
    (found rest : Option String)
    → is_some (found_or found rest) ≡ (is_some (nonempty found) || is_some rest)
unfolding found_or
found_or-is_some found rest = ground arith

found_or-nonempty :
    (found rest : Option String)
    → nonempty rest ≡ rest
    → nonempty (found_or found rest) ≡ found_or found rest
unfolding found_or
found_or-nonempty none rest r = r
found_or-nonempty (some s) rest r = ground arith

-- A loop returns no empty text.
find_in_values-nonempty : (d : Fields) → nonempty (find_in_values d) ≡ find_in_values d
unfolding find_in_values
find_in_values-nonempty end = refl
find_in_values-nonempty (field k v d) =
    found_or-nonempty (find_external_ref v) (find_in_values d) (find_in_values-nonempty d)

find_in_items-nonempty : (xs : Items) → nonempty (find_in_items xs) ≡ find_in_items xs
unfolding find_in_items
find_in_items-nonempty nil = refl
find_in_items-nonempty (cons v xs) =
    found_or-nonempty (find_external_ref v) (find_in_items xs) (find_in_items-nonempty xs)

both_false : (a b : Bool) → (a || b) ≡ false → (a ≡ false) × (b ≡ false)
both_false a b h = (ground arith, ground arith)

mutual
  unfolding find_external_ref has_external_ref has_empty_ref

  find-has_external_ref :
      (v : Json)
      → has_empty_ref v ≡ false
      → is_some (nonempty (find_external_ref v)) ≡ has_external_ref v
  find-has_external_ref (obj d) h =
      let (plain, rest) = both_false (is_text (get "$ref" d) "") (values_have_empty_ref d) h in
      rw
        (
          ref_or-is_some (get "$ref" d) (find_in_values d) plain (find_in_values-nonempty d),
          values-found d rest,
        )
        refl
  find-has_external_ref (arr xs) h = rw (find_in_items-nonempty xs) (items-found xs h)
  find-has_external_ref null h = refl
  find-has_external_ref (bool b) h = refl
  find-has_external_ref (num n) h = refl
  find-has_external_ref (str s) h = refl

  values-found :
      (d : Fields)
      → values_have_empty_ref d ≡ false
      → is_some (find_in_values d) ≡ values_have_external_ref d
  values-found end h = refl
  values-found (field k v d) h =
      let (plain, rest) = both_false (has_empty_ref v) (values_have_empty_ref d) h in
      found_or-is_some (find_external_ref v) (find_in_values d)
      ∙ rw (find-has_external_ref v plain, values-found d rest) refl

  items-found :
      (xs : Items)
      → items_have_empty_ref xs ≡ false
      → is_some (find_in_items xs) ≡ items_have_external_ref xs
  items-found nil h = refl
  items-found (cons v xs) h =
      let (plain, rest) = both_false (has_empty_ref v) (items_have_empty_ref xs) h in
      found_or-is_some (find_external_ref v) (find_in_items xs)
      ∙ rw (find-has_external_ref v plain, items-found xs rest) refl
