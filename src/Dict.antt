-- ===== src/Dict.antt =====
-- A Python dict with text keys, as its items in insertion order.
use text.Mathlib.Text.{◌==◌ as str_eq}
use text.Mathlib.TextEquality.{eq_iff}
use text.Mathlib.TextPositions.{eq_refl}
use code_mate.Prelude.{
  String, ◌≡◌, refl, ◌≢◌, Bool, true, Option, none, some, List, [], ◌∷◌, arith, if◌then◌else◌,
}

abbrev pub Dict {ℓ} : Type ℓ → Type ℓ
Dict V = List (String × V)

module _ {ℓ} {V : Type ℓ} where
  -- `d.get(key)`
  unfoldable pub lookup : String → Dict V → Option V
  lookup k [] = none
  lookup k ((j, v) ∷ d) = if str_eq j k then some v else lookup k d

  -- `d[key] = value`
  unfoldable pub insert : String → V → Dict V → Dict V
  insert k v [] = (k, v) ∷ []
  insert k v ((j, w) ∷ d) = if str_eq j k then (j, v) ∷ d else (j, w) ∷ insert k v d

  -- `{key: value for key, value in d.items() if test(value)}`
  unfoldable pub keep : (V → Bool) → Dict V → Dict V
  keep test [] = []
  keep test ((j, v) ∷ d) = let rest = keep test d in if test v then (j, v) ∷ rest else rest

  pub lookup-insert :
      (k j : String) (v : V) (d : Dict V)
      → lookup j (insert k v d) ≡ (if str_eq k j then some v else lookup j d)
  unfolding lookup insert
  lookup-insert k j v [] = refl
  lookup-insert k j v ((i, w) ∷ d) =
      ground (arith, eq_iff k j, eq_iff i k, eq_iff i j, lookup-insert k j v d)

  pub lookup-insert_self : (k : String) (v : V) (d : Dict V) → lookup k (insert k v d) ≡ some v
  lookup-insert_self k v d = simp (lookup-insert, eq_refl)

  pub lookup-insert_ne :
      (k j : String) (v : V) (d : Dict V) → k ≢ j → lookup j (insert k v d) ≡ lookup j d
  lookup-insert_ne k j v d h = ground (arith, lookup-insert k j v d, eq_iff k j)

  -- A value that passes the test is kept.
  pub lookup-keep :
      (test : V → Bool) (k : String) (v : V) (d : Dict V)
      → lookup k d ≡ some v
      → test v ≡ true
      → lookup k (keep test d) ≡ some v
  unfolding lookup keep
  lookup-keep test k v [] h t = cc
  lookup-keep test k v ((j, w) ∷ d) h t = ground (arith, lookup-keep test k v d)

  pub keep-keep : (test : V → Bool) (d : Dict V) → keep test (keep test d) ≡ keep test d
  unfolding keep
  keep-keep test [] = refl
  keep-keep test ((j, v) ∷ d) = ground (arith, keep-keep test d)
