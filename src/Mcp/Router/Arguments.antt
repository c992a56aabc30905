-- ===== src/Mcp/Router/Arguments.antt =====
-- The arguments of a call and the schema of its tool: `find_external_ref`, `validate_tool_arguments`,
-- `call_fingerprint` and `sha256_arguments` of backend/app/mcp/router.py. jsonschema, json and
-- hashlib are parameters.
use text.Mathlib.Text.{◌==◌ as str_eq}
use Prim.Native.String.{◌++◌ as str_append}
use code_mate.Prelude.{String, Option, none, some, if◌then◌else◌}
use code_mate.Json.{Json, Items, Fields, str, arr, obj, nil, cons, end, field, get}
use code_mate.Text.{starts_with, take}

-- `ref if isinstance(ref, str) and not ref.startswith("#")`
abbrev pub external_ref : Json → Option String
external_ref (str s) = if starts_with s "#" then none else some s
external_ref v = none

-- `if found:` for a text or None.
abbrev pub nonempty : Option String → Option String
nonempty none = none
nonempty (some s) = if str_eq s "" then none else some s

-- `return ref` for an external one, and what follows it.
unfoldable pub ref_or : Json → Option String → Option String
ref_or value rest = elim (external_ref value) [ some ref ↦ some ref | none ↦ rest ]

-- `if found: return found`, and what the rest of the loop returns.
unfoldable pub found_or : Option String → Option String → Option String
found_or found rest = elim (nonempty found) [ some ref ↦ some ref | none ↦ rest ]

unfoldable mutual
  pub find_external_ref : Json → Option String
  find_external_ref (obj d) = ref_or (get "$ref" d) (find_in_values d)
  find_external_ref (arr xs) = find_in_items xs
  find_external_ref v = none

  pub find_in_values : Fields → Option String
  find_in_values end = none
  find_in_values (field k v d) = found_or (find_external_ref v) (find_in_values d)

  pub find_in_items : Items → Option String
  find_in_items nil = none
  find_in_items (cons v xs) = found_or (find_external_ref v) (find_in_items xs)

-- What jsonschema finds: a schema that is none, with its message, or the first error by path.
pub data SchemaCheck : Type 0 where
  valid : SchemaCheck
  schema_error : String → SchemaCheck
  first_error : String → String → SchemaCheck

-- `f"{location + ': ' if location else ''}{first.message}"`
abbrev pub located : String → String → String
located location message =
    if str_eq location "" then message else str_append location (str_append ": " message)

-- `validate_tool_arguments`: none is what the source returns for no error.
unfoldable pub validate_tool_arguments :
    (Json → Fields → SchemaCheck) → Json → Fields → Option String
validate_tool_arguments jsonschema schema arguments = elim (nonempty (find_external_ref schema)) [
  | some ref ↦ some (str_append "external schema references are not allowed: " ref)
  | none ↦ elim (jsonschema schema arguments) [
    | valid ↦ none
    | schema_error message ↦ some (str_append "invalid tool schema: " message)
    | first_error location message ↦ some (take 1000 (located location message))
  ]
]

-- `call_fingerprint`: the two as one JSON text.
abbrev pub call_fingerprint : (Json → String) → String → Json → String
call_fingerprint dumps qualified_name arguments =
    dumps (arr (cons (str qualified_name) (cons arguments nil)))

abbrev pub sha256_arguments : (Json → String) → (String → String) → Fields → String
sha256_arguments canonical sha256 arguments = sha256 (canonical (obj arguments))
