-- ===== src/Sandbox/Patches/Examples.antt =====
-- A patch whose second count is stale.
use text.Mathlib.Text.{◌==◌ as str_eq}
use code_mate.Prelude.{
  ℕ, ◌≤◌, ◌≡◌, refl, String, Bool, true, List, [], ◌∷◌, ◌||◌, ◌==◌, if◌then◌else◌,
}
use code_mate.Text.{starts_with}
use code_mate.Lists.{length, drop}
use code_mate.Sandbox.Patches.Header.{rstrip, ends_with, after, digits, fullmatch}
use code_mate.Sandbox.Patches.Normalize.{
  normalized, after_step, count_hunk_lines, ends_body, starts_file_header, split_body, count_from,
  any_context, step, normalize, normalize_unified_diff_hunks,
}
use code_mate.Sandbox.Patches.Lines.{changes, same_but_headers}
use code_mate.Sandbox.Patches.Content.{normalize_keeps_content}

-- Stand-ins for the digits of Python, as far as the patch has them.
abbrev is_digit : String → Bool
is_digit c = str_eq c "1" || str_eq c "2" || str_eq c "3" || str_eq c "5"

abbrev int : String → ℕ
int s = if str_eq s "1" then 1 else if str_eq s "2" then 2 else if str_eq s "5" then 5 else 3

abbrev show_number : ℕ → String
show_number n = if n == 3 then "3" else "4"

abbrev patch_with : String → List String
patch_with header =
    "--- a/f.py\n" ∷ "+++ b/f.py\n" ∷ header ∷ " one\n" ∷ "-two\n" ∷ "+deux\n" ∷ "+trois\n"
    ∷ " end\n" ∷ []

abbrev stale : List String
stale = patch_with "@@ -1,3 +1,2 @@ f\n"

-- A stand-in for splitlines.
abbrev split : String → List String
split diff = stale

normalize_keeps_content_example :
    (changes stale (patch_with "@@ -1,3 +1,4 @@ f\n") ≤ 1)
    × (same_but_headers stale (patch_with "@@ -1,3 +1,4 @@ f\n") ≡ true)
unfolding normalize_unified_diff_hunks normalize starts_with rstrip ends_with after digits fullmatch
    starts_file_header split_body count_from any_context length drop step after_step
    count_hunk_lines ends_body
normalize_keeps_content_example =
    normalize_keeps_content is_digit int show_number split "patch"
      {out = patch_with "@@ -1,3 +1,4 @@ f\n"} {repaired = 1} refl

-- A hunk with right counts that removes the line "-- old" and adds "++ new" in its place.
abbrev sql_with : String → List String
sql_with header =
    "--- a/q.sql\n" ∷ "+++ b/q.sql\n" ∷ header ∷ " a\n" ∷ "-x\n" ∷ "+y\n" ∷ " b\n" ∷ "--- old\n"
    ∷ "+++ new\n" ∷ " c\n" ∷ []

-- The two lines are taken for a file header, and the counts are "repaired" to the lines before them.
sql_cut :
    normalize_unified_diff_hunks is_digit int show_number
      (λ diff. sql_with "@@ -1,5 +1,5 @@\n")
      "sql"
    ≡ normalized (sql_with "@@ -1,3 +1,3 @@\n") 1
unfolding normalize_unified_diff_hunks normalize starts_with rstrip ends_with after digits fullmatch
    starts_file_header split_body count_from any_context length drop step after_step
    count_hunk_lines ends_body
sql_cut = refl
