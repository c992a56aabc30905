-- ===== src/Mcp/Approval/Redaction.antt =====
-- `redact_sensitive`: what an approval shows of arguments and results. `lower` is Python's
-- `str.lower`, a parameter.
use text.Mathlib.Text.{◌==◌ as str_eq}
use text.Mathlib.TextPositions.{eq_refl}
use text.Mathlib.TextEquality.{eq_iff}
use code_mate.Prelude.{
  ◌≡◌, refl, String, Bool, true, false, not, ◌||◌, ◌&&◌, List, [], ◌∷◌, ap, arith, ◌∙◌,
  if◌then◌else◌,
}
use Prim.Native.Char.{Char}
use code_mate.Lists.{All}
use code_mate.Text.{starts_with}
use code_mate.Json.{
  Json, Items, Fields, null, bool, num, str, arr, obj, nil, cons, end, field, get, is_text,
}

-- `part in text`
unfoldable pub contains : String → String → Bool
contains part String.[] = starts_with String.[] part
contains part (String.◌∷◌ c s) = starts_with (String.◌∷◌ c s) part || contains part s

-- `text.replace("-", "_")`
unfoldable pub dashes_to_underscores : String → String
dashes_to_underscores String.[] = ""
dashes_to_underscores (String.◌∷◌ c s) =
    String.◌∷◌ (if str_eq (String.◌∷◌ c String.[]) "-" then "_" else c) (dashes_to_underscores s)

abbrev pub sensitive_key_parts : List String
sensitive_key_parts = "authorization" ∷ "password" ∷ "secret" ∷ "token" ∷ "api_key" ∷ "apikey" ∷ []

unfoldable pub any_in : List String → String → Bool
any_in [] s = false
any_in (part ∷ parts) s = contains part s || any_in parts s

-- The text begins with the word, where a "-" may stand for a "_" of the word.
unfoldable pub spells : String → String → Bool
spells s String.[] = true
spells String.[] (String.◌∷◌ w word) = false
spells (String.◌∷◌ c s) (String.◌∷◌ w word) =
    (str_eq (String.◌∷◌ c String.[]) (String.◌∷◌ w String.[])
      || str_eq (String.◌∷◌ w String.[]) "_" && str_eq (String.◌∷◌ c String.[]) "-")
    && spells s word

unfoldable pub begins_one_of : List String → String → Bool
unfolding spells
begins_one_of [] s = false
begins_one_of (word ∷ words) s = spells s word || begins_one_of words s

-- One of the secret words begins at some place of the text.
unfoldable pub names_secret : String → Bool
unfolding begins_one_of
names_secret String.[] = false
names_secret (String.◌∷◌ c s) =
    begins_one_of ("authorization" ∷ "password" ∷ "secret" ∷ "token" ∷ "api_key" ∷ "apikey" ∷ [])
      (String.◌∷◌ c s)
    || names_secret s

unfoldable has_no_dash : String → Bool
has_no_dash String.[] = true
has_no_dash (String.◌∷◌ w word) = not (str_eq (String.◌∷◌ w String.[]) "-") && has_no_dash word

-- A character after the replacement, compared with one that is no dash.
spelled_char :
    (c w : Char) (is_dash : Bool)
    → str_eq (String.◌∷◌ c String.[]) "-" ≡ is_dash
    → str_eq (String.◌∷◌ w String.[]) "-" ≡ false
    → str_eq (String.◌∷◌ (if is_dash then "_" else c) String.[]) (String.◌∷◌ w String.[])
      ≡ str_eq (String.◌∷◌ c String.[]) (String.◌∷◌ w String.[])
        || str_eq (String.◌∷◌ w String.[]) "_" && is_dash
spelled_char c w false h plain = ground arith
spelled_char c w true h plain = ground (
  arith,
  h,
  plain,
  eq_iff (String.◌∷◌ c String.[]) "-",
  eq_iff (String.◌∷◌ w String.[]) "_",
  eq_iff "_" (String.◌∷◌ w String.[]),
  eq_iff (String.◌∷◌ c String.[]) (String.◌∷◌ w String.[]),
)

starts_with-dashes :
    (word s : String)
    → has_no_dash word ≡ true
    → starts_with (dashes_to_underscores s) word ≡ spells s word
unfolding starts_with dashes_to_underscores spells has_no_dash
starts_with-dashes String.[] s plain = refl
starts_with-dashes (String.◌∷◌ w word) String.[] plain = refl
starts_with-dashes (String.◌∷◌ w word) (String.◌∷◌ c s) plain =
    let spelled =
      spelled_char c w (str_eq (String.◌∷◌ c String.[]) "-") refl (ground (arith, plain)) in
    cc (spelled, starts_with-dashes word s (ground (arith, plain)))

any_in-dashes :
    (parts : List String) (c : Char) (s : String)
    → All (λ part. has_no_dash part ≡ true) parts
    → any_in parts (dashes_to_underscores (String.◌∷◌ c s))
      ≡ begins_one_of parts (String.◌∷◌ c s) || any_in parts (dashes_to_underscores s)
unfolding any_in contains begins_one_of dashes_to_underscores
any_in-dashes [] c s plain = refl
any_in-dashes (part ∷ parts) c s (first, rest) =
    ground (arith, starts_with-dashes part (String.◌∷◌ c s) first, any_in-dashes parts c s rest)

any_in-names_secret :
    (s : String) → any_in sensitive_key_parts (dashes_to_underscores s) ≡ names_secret s
unfolding names_secret has_no_dash any_in contains starts_with dashes_to_underscores
any_in-names_secret String.[] = refl
any_in-names_secret (String.◌∷◌ c s) =
    any_in-dashes sensitive_key_parts c s (refl, (refl, (refl, (refl, (refl, (refl, tt))))))
    ∙ ap (λ b. begins_one_of sensitive_key_parts (String.◌∷◌ c s) || b) (any_in-names_secret s)

module _ (lower : String → String) where
  unfoldable pub is_sensitive : String → Bool
  is_sensitive key = any_in sensitive_key_parts (dashes_to_underscores (lower key))

  unfoldable mutual
    pub redact_sensitive : Json → Json
    redact_sensitive (obj d) = obj (redact_fields d)
    redact_sensitive (arr xs) = arr (redact_items xs)
    redact_sensitive null = null
    redact_sensitive (bool b) = bool b
    redact_sensitive (num n) = num n
    redact_sensitive (str s) = str s

    pub redact_items : Items → Items
    redact_items nil = nil
    redact_items (cons v xs) = cons (redact_sensitive v) (redact_items xs)

    pub redact_fields : Fields → Fields
    redact_fields end = end
    redact_fields (field k v d) =
        field k (if is_sensitive k then str "***redacted***" else redact_sensitive v)
          (redact_fields d)

  -- Whatever its case, the key has one of the secret words in it.
  abbrev pub is_secret_key : String → Bool
  is_secret_key key = names_secret (lower key)

  is_sensitive-eq : (key : String) → is_sensitive key ≡ is_secret_key key
  unfolding is_sensitive
  is_sensitive-eq key = any_in-names_secret (lower key)

  -- No value at a key with a secret word, however deep, but the placeholder.
  unfoldable mutual
    pub has_no_secret : Json → Bool
    has_no_secret (obj d) = fields_have_no_secret d
    has_no_secret (arr xs) = items_have_no_secret xs
    has_no_secret null = true
    has_no_secret (bool b) = true
    has_no_secret (num n) = true
    has_no_secret (str s) = true

    pub items_have_no_secret : Items → Bool
    items_have_no_secret nil = true
    items_have_no_secret (cons v xs) = has_no_secret v && items_have_no_secret xs

    pub fields_have_no_secret : Fields → Bool
    fields_have_no_secret end = true
    fields_have_no_secret (field k v d) =
        (if is_secret_key k then is_text v "***redacted***" else has_no_secret v)
        && fields_have_no_secret d

  mutual
    unfolding redact_sensitive has_no_secret

    redact-has_no_secret : (v : Json) → has_no_secret (redact_sensitive v) ≡ true
    redact-has_no_secret (obj d) = redact_fields-no_secret d
    redact-has_no_secret (arr xs) = redact_items-no_secret xs
    redact-has_no_secret null = refl
    redact-has_no_secret (bool b) = refl
    redact-has_no_secret (num n) = refl
    redact-has_no_secret (str s) = refl

    redact_items-no_secret : (xs : Items) → items_have_no_secret (redact_items xs) ≡ true
    redact_items-no_secret nil = refl
    redact_items-no_secret (cons v xs) =
        ground (arith, redact-has_no_secret v, redact_items-no_secret xs)

    redact_fields-no_secret : (d : Fields) → fields_have_no_secret (redact_fields d) ≡ true
    redact_fields-no_secret end = refl
    redact_fields-no_secret (field k v d) = ground (
      arith,
      redact-has_no_secret v,
      redact_fields-no_secret d,
      eq_refl "***redacted***",
      is_sensitive-eq k,
    )

  -- What is shown has no secret: however deeply the value is nested, every key of the redacted value
  -- that has, in any case, the word authorization, password, secret, token, apikey, api_key or api-key
  -- in it holds only the placeholder.
  pub redacted_reveals_nothing : (v : Json) → has_no_secret (redact_sensitive v) ≡ true
  redacted_reveals_nothing v = redact-has_no_secret v

  mutual
    unfolding redact_sensitive

    redact-redact : (v : Json) → redact_sensitive (redact_sensitive v) ≡ redact_sensitive v
    redact-redact (obj d) = ap obj (redact_fields-redact d)
    redact-redact (arr xs) = ap arr (redact_items-redact xs)
    redact-redact null = refl
    redact-redact (bool b) = refl
    redact-redact (num n) = refl
    redact-redact (str s) = refl

    redact_items-redact : (xs : Items) → redact_items (redact_items xs) ≡ redact_items xs
    redact_items-redact nil = refl
    redact_items-redact (cons v xs) = ground (arith, redact-redact v, redact_items-redact xs)

    redact_fields-redact : (d : Fields) → redact_fields (redact_fields d) ≡ redact_fields d
    redact_fields-redact end = refl
    redact_fields-redact (field k v d) = ground (arith, redact-redact v, redact_fields-redact d)

  get-redact :
      (k : String) (d : Fields)
      → is_sensitive k ≡ false
      → get k (redact_fields d) ≡ redact_sensitive (get k d)
  unfolding redact_sensitive get
  get-redact k end plain = refl
  get-redact k (field j v d) plain = ground (arith, get-redact k d plain, eq_iff j k)

  -- Redacting twice shows what redacting once shows, and a key that is not sensitive still leads to
  -- its value, redacted.
  redact_keeps :
      (k : String) (d : Fields)
      → is_sensitive k ≡ false
      → (redact_sensitive (redact_sensitive (obj d)) ≡ redact_sensitive (obj d))
        × (get k (redact_fields d) ≡ redact_sensitive (get k d))
  redact_keeps k d plain = (redact-redact (obj d), get-redact k d plain)
