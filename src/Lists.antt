-- ===== src/Lists.antt =====
-- Lists as the program uses them, on the native numbers: lengths, cuts, tests and predicates.
use text.Mathlib.Text.{◌==◌ as str_eq}
use text.Mathlib.TextPositions.{eq_refl}
use code_mate.Prelude.{
  ◌≤◌, true, refl, ◌-◌, ℕ, zero, suc, ◌+◌, ◌≡◌, String, Bool, false, ◌||◌, min, List, [], ◌∷◌, ◌++◌,
  arith,
}

module _ {ℓ} {A : Type ℓ} where
  -- `len(items)`
  unfoldable pub length : List A → ℕ
  length [] = 0
  length (x ∷ xs) = suc (length xs)

  -- `items[:n]`
  unfoldable pub take : ℕ → List A → List A
  take zero xs = []
  take (suc n) [] = []
  take (suc n) (x ∷ xs) = x ∷ take n xs

  -- Every item satisfies the predicate.
  abbrev pub All : (A → Type 0) → List A → Type 0
  All P [] = Unit
  All P (x ∷ xs) = P x × All P xs

  pub length-append : (xs ys : List A) → length (xs ++ ys) ≡ length xs + length ys
  unfolding length
  length-append [] ys = ground arith
  length-append (x ∷ xs) ys = ground (arith, length-append xs ys)

  pub length-take : (n : ℕ) (xs : List A) → length (take n xs) ≡ min n (length xs)
  unfolding length take
  length-take zero xs = ground arith
  length-take (suc n) [] = ground arith
  length-take (suc n) (x ∷ xs) = ground (arith, length-take n xs)

  pub All-append : (P : A → Type 0) (xs ys : List A) → All P xs → All P ys → All P (xs ++ ys)
  All-append P [] ys p q = q
  All-append P (x ∷ xs) ys (px, p) q = (px, All-append P xs ys p q)

  pub All-map : (P Q : A → Type 0) (xs : List A) → ((x : A) → P x → Q x) → All P xs → All Q xs
  All-map P Q [] f p = tt
  All-map P Q (x ∷ xs) f (px, p) = (f x px, All-map P Q xs f p)

  pub All-zip : (P Q : A → Type 0) (xs : List A) → All P xs → All Q xs → All (λ x. P x × Q x) xs
  All-zip P Q [] p q = tt
  All-zip P Q (x ∷ xs) (px, p) (qx, q) = ((px, qx), All-zip P Q xs p q)

-- `text in texts`
unfoldable pub member : String → List String → Bool
member s [] = false
member s (t ∷ ts) = str_eq t s || member s ts

module _ {ℓ} {A : Type ℓ} where
  -- `items[n:]`
  unfoldable pub drop : ℕ → List A → List A
  drop zero xs = xs
  drop (suc n) [] = []
  drop (suc n) (x ∷ xs) = drop n xs

  -- `items[-n:]`, which is the whole list for n = 0.
  unfoldable pub last : ℕ → List A → List A
  unfolding drop
  last zero xs = xs
  last (suc n) xs = drop (length xs - suc n) xs

drop-append {ℓ} :
    {A : Type ℓ} (n : ℕ) (xs ys : List A) → n ≤ length xs → drop n (xs ++ ys) ≡ drop n xs ++ ys
unfolding drop length
drop-append zero xs ys h = refl
drop-append (suc n) [] ys h = ground arith
drop-append (suc n) (x ∷ xs) ys h = drop-append n xs ys (omega arith)

member-append : (s : String) (xs : List String) → member s (xs ++ (s ∷ [])) ≡ true
unfolding member
member-append s [] = ground (arith, eq_refl s)
member-append s (x ∷ xs) = ground (arith, member-append s xs)

-- A text that is appended is among the last ones, however few are kept.
pub member-last :
    (n : ℕ) (s : String) (xs : List String) → member s (last n (xs ++ (s ∷ []))) ≡ true
unfolding last length
member-last zero s xs = member-append s xs
member-last (suc n) s xs =
    rw (length-append xs (s ∷ []), drop-append (length xs + 1 - suc n) xs (s ∷ []) (omega arith))
      (member-append s (drop (length xs + 1 - suc n) xs))
