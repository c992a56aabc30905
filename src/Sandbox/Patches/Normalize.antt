-- ===== src/Sandbox/Patches/Normalize.antt =====
-- `normalize_unified_diff_hunks` of backend/app/sandbox/patches.py.
use code_mate.Prelude.{
  ℕ, zero, suc, ◌+◌, String, Bool, true, false, not, ◌&&◌, ◌||◌, Option, none, some, List, [], ◌∷◌,
  ◌++◌, ◌==◌, if◌then◌else◌,
}
use code_mate.Lists.{length, drop}
use code_mate.Text.{starts_with}
use code_mate.Sandbox.Patches.Header.{HunkHeader, rstrip, newline_of, fullmatch, repaired_header}

-- `InvalidUnifiedDiffError`
pub data Error : Type 0 where
  hunk_before_file_header : Error
  invalid_hunk_header : String → Error
  invalid_line_in_hunk : String → Error
  may_be_truncated : Error

-- `_starts_file_header`, for the lines from the index on.
unfoldable pub starts_file_header : List String → Bool
starts_file_header (line ∷ (next ∷ rest)) = starts_with line "--- " && starts_with next "+++ "
starts_file_header lines = false

-- Where the body of a hunk ends.
unfoldable pub ends_body : List String → Bool
unfolding starts_file_header
ends_body [] = true
ends_body (line ∷ rest) =
    starts_with line "diff --git " || starts_with line "@@ " || starts_file_header (line ∷ rest)

-- The body of a hunk, and the lines after it.
unfoldable pub split_body : List String → List String × List String
split_body [] = ([], [])
split_body (line ∷ rest) =
    let later = split_body rest in
    if ends_body (line ∷ rest) then ([], line ∷ rest) else (line ∷ later.0, later.1)

-- What `_count_hunk_lines` returns; no change has no last index.
pub record Counts : Type 0 where
  pub old_count : ℕ
  pub new_count : ℕ
  pub last_change_index : Option ℕ

pub data Counting : Type 0 where
  counted : Counts → Counting
  raised : Error → Counting

-- The loop of `_count_hunk_lines` from an index on.
unfoldable pub count_from : ℕ → List String → Counts → Counting
count_from index [] n = counted n
count_from index (line ∷ rest) n =
    let next =
      if starts_with line " "
      then record n { old_count = n.old_count + 1; new_count = n.new_count + 1 }
      else if starts_with line "-"
      then record n { old_count = n.old_count + 1; last_change_index = some index }
      else if starts_with line "+"
      then record n { new_count = n.new_count + 1; last_change_index = some index }
      else n in
    let later = count_from (index + 1) rest next in
    if starts_with line " "
      || starts_with line "-"
      || starts_with line "+"
      || starts_with line "\\ No newline at end of file"
    then later
    else raised (invalid_line_in_hunk (rstrip line))

unfoldable pub count_hunk_lines : List String → Counting
count_hunk_lines body =
    count_from 0 body (record { old_count = 0; new_count = 0; last_change_index = none })

-- `any(line.startswith(" ") for line in lines)`
unfoldable pub any_context : List String → Bool
any_context [] = false
any_context (line ∷ rest) = starts_with line " " || any_context rest

-- Whether there is a change, and context after the last one.
abbrev pub has_trailing_context : Option ℕ → List String → Bool
has_trailing_context none body = false
has_trailing_context (some index) body = any_context (drop (index + 1) body)

-- One turn of the loop: the lines it appends, the hunks it repairs, and where it goes on.
pub data Step : Type 0 where
  appends : List String → ℕ → Bool → List String → Step
  stops : Error → Step

pub data Outcome : Type 0 where
  normalized : List String → ℕ → Outcome
  failed : Error → Outcome
  out_of_fuel : Outcome

abbrev pub prepend : List String → ℕ → Outcome → Outcome
prepend lines repaired (normalized rest n) = normalized (lines ++ rest) (repaired + n)
prepend lines repaired outcome = outcome

-- What follows a turn of the loop.
unfoldable pub after_step : (Bool → List String → Outcome) → Step → Outcome
after_step later (stops e) = failed e
after_step later (appends lines repaired saw_file_header rest) =
    prepend lines repaired (later saw_file_header rest)

module _ (is_digit : String → Bool) (int : String → ℕ) (text : ℕ → String) where
  -- `int(match.group(k) or "1")`
  abbrev pub declared : Option String → ℕ
  declared none = int "1"
  declared (some digits) = int digits

  -- A hunk whose body has been counted.
  unfoldable pub finish_hunk : String → HunkHeader → List String → List String → Counting → Step
  finish_hunk line h body rest (raised e) = stops e
  finish_hunk line h body rest (counted n) =
      if declared h.old_count == n.old_count && declared h.new_count == n.new_count
      then appends (line ∷ body) 0 true rest
      else if has_trailing_context n.last_change_index body
      then appends (repaired_header text h n.old_count n.new_count (newline_of line) ∷ body) 1 true
          rest
      else stops may_be_truncated

  -- A hunk after a file header.
  unfoldable pub read_hunk : String → List String → Option HunkHeader → Step
  unfolding finish_hunk
  read_hunk line lines none = stops (invalid_hunk_header (rstrip line))
  read_hunk line lines (some h) =
      let parts = split_body lines in finish_hunk line h parts.0 parts.1 (count_hunk_lines parts.0)

  -- The body of the loop, at a line.
  unfoldable pub step : Bool → String → List String → Step
  unfolding read_hunk
  step saw_file_header line lines =
      if starts_with line "diff --git " || starts_file_header (line ∷ lines)
      then appends (line ∷ []) 0 true lines
      else if not (starts_with (rstrip line) "@@ ")
      then appends (line ∷ []) 0 saw_file_header lines
      else if not saw_file_header
      then stops hunk_before_file_header
      else read_hunk line lines (fullmatch is_digit (rstrip line))

  -- The loop.
  unfoldable pub normalize : ℕ → Bool → List String → Outcome
  unfolding step
  normalize fuel saw_file_header [] = normalized [] 0
  normalize zero saw_file_header (line ∷ lines) = out_of_fuel
  normalize (suc fuel) saw_file_header (line ∷ lines) =
      after_step (normalize fuel) (step saw_file_header line lines)

  -- `normalize_unified_diff_hunks`, up to the join of the lines.
  unfoldable pub normalize_unified_diff_hunks : (String → List String) → String → Outcome
  unfolding normalize
  normalize_unified_diff_hunks split diff = normalize (length (split diff)) false (split diff)
