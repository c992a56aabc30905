-- ===== src/Sandbox/Patches/Lines.antt =====
-- What a turn of the repair of a patch does with the lines.
use text.Mathlib.Text.{◌==◌ as str_eq}
use text.Mathlib.TextPositions.{eq_refl}
use code_mate.Prelude.{
  ℕ, ◌+◌, ◌≤◌, ◌≡◌, refl, sym, ap, String, Bool, true, false, ◌||◌, ◌&&◌, Option, none, some, List,
  [], ◌∷◌, ◌++◌, inl, inr, Bool-cases, arith, if◌then◌else◌, ◌==◌,
}
use code_mate.Lists.{length, length-append}
use code_mate.Text.{starts_with}
use code_mate.Sandbox.Patches.Header.{HunkHeader, rstrip, fullmatch, newline_of, repaired_header}
use code_mate.Sandbox.Patches.Normalize.{
  starts_file_header, ends_body, split_body, Counting, counted, raised, count_hunk_lines,
  has_trailing_context, Step, appends, stops, declared, finish_hunk, read_hunk, step,
}

abbrev differs : String → String → ℕ
differs x y = if str_eq x y then 0 else 1

-- How many lines are not what they were.
unfoldable pub changes : List String → List String → ℕ
changes [] ys = length ys
changes (x ∷ xs) [] = length (x ∷ xs)
changes (x ∷ xs) (y ∷ ys) = differs x y + changes xs ys

-- Every line but the headers of hunks is what it was.
unfoldable pub same_but_headers : List String → List String → Bool
same_but_headers [] [] = true
same_but_headers [] (y ∷ ys) = false
same_but_headers (x ∷ xs) [] = false
same_but_headers (x ∷ xs) (y ∷ ys) =
    (str_eq x y || starts_with (rstrip x) "@@ ") && same_but_headers xs ys

pub changes-append : (body xs ys : List String) → changes (body ++ xs) (body ++ ys) ≡ changes xs ys
unfolding changes
changes-append [] xs ys = refl
changes-append (b ∷ body) xs ys = ground (arith, eq_refl b, changes-append body xs ys)

pub same-append :
    (body xs ys : List String) → same_but_headers (body ++ xs) (body ++ ys) ≡ same_but_headers xs ys
unfolding same_but_headers
same-append [] xs ys = refl
same-append (b ∷ body) xs ys = ground (arith, eq_refl b, same-append body xs ys)

split_body-append : (lines : List String) → (split_body lines).0 ++ (split_body lines).1 ≡ lines
unfolding split_body
split_body-append [] = refl
split_body-append (line ∷ rest) = elim (Bool-cases (ends_body (line ∷ rest))) [
  | inl yes_ends ↦ rw yes_ends refl
  | inr goes_on ↦ rw goes_on (ap (λ ls. line ∷ ls) (split_body-append rest))
]

module _ (is_digit : String → Bool) (int : String → ℕ) (text : ℕ → String) where
  -- A turn appends the line, or the header of a hunk in its place, and the lines after it up to where
  -- it goes on.
  pub record Extends (line : String) (lines out : List String) (repaired : ℕ) (rest : List String)
      : Type 0 where
    pub new : String
    pub body : List String
    pub appended : out ≡ (new ∷ body)
    pub consumed : lines ≡ body ++ rest
    pub counts : differs line new ≤ repaired
    pub header : (str_eq line new || starts_with (rstrip line) "@@ ") ≡ true

  abbrev pub IsFaithful : String → List String → Step → Type 0
  IsFaithful line lines (stops e) = Unit
  IsFaithful line lines (appends out repaired saw rest) = Extends line lines out repaired rest

  finish_hunk-IsFaithful :
      (line : String) (lines : List String) (h : HunkHeader) (c : Counting)
      → starts_with (rstrip line) "@@ " ≡ true
      → IsFaithful line lines
          (finish_hunk is_digit int text line h (split_body lines).0 (split_body lines).1 c)
  unfolding finish_hunk
  finish_hunk-IsFaithful line lines h (raised e) is = tt
  finish_hunk-IsFaithful line lines h (counted n) is =
      let body = (split_body lines).0 in
      elim (Bool-cases (
        declared is_digit int text h.old_count == n.old_count
        && declared is_digit int text h.new_count == n.new_count)) [
          | inl right ↦ rw right (record {
            new = line;
            body = body;
            appended = refl;
            consumed = sym (split_body-append lines);
            counts = ground (arith, eq_refl line);
            header = ground (arith, eq_refl line);
          })
          | inr wrong ↦ elim (Bool-cases (has_trailing_context n.last_change_index body)) [
            | inl context ↦
                rw (wrong, context)
                  (record {
                    new = repaired_header text h n.old_count n.new_count (newline_of line);
                    body = body;
                    appended = refl;
                    consumed = sym (split_body-append lines);
                    counts = ground arith;
                    header = ground (arith, is);
                  })
            | inr cut ↦ rw (wrong, cut) tt
          ]
        ]

  read_hunk-IsFaithful :
      (line : String) (lines : List String) (h : Option HunkHeader)
      → starts_with (rstrip line) "@@ " ≡ true
      → IsFaithful line lines (read_hunk is_digit int text line lines h)
  unfolding read_hunk
  read_hunk-IsFaithful line lines none is = tt
  read_hunk-IsFaithful line lines (some h) is =
      finish_hunk-IsFaithful line lines h (count_hunk_lines (split_body lines).0) is

  kept : (line : String) (lines : List String) → Extends line lines (line ∷ []) 0 lines
  kept line lines = record {
    new = line;
    body = [];
    appended = refl;
    consumed = refl;
    counts = ground (arith, eq_refl line);
    header = ground (arith, eq_refl line);
  }

  pub step-IsFaithful :
      (saw : Bool) (line : String) (lines : List String)
      → IsFaithful line lines (step is_digit int text saw line lines)
  unfolding step
  step-IsFaithful saw line lines =
      elim (Bool-cases (starts_with line "diff --git " || starts_file_header (line ∷ lines))) [
        | inl file ↦ rw (file, step) (kept line lines)
        | inr other ↦ elim (Bool-cases (starts_with (rstrip line) "@@ ")) [
          | inr plain ↦ rw (other, plain) (kept line lines)
          | inl hunk ↦ elim (Bool-cases saw) [
            | inl seen ↦
                rw (other, hunk, seen)
                  (read_hunk-IsFaithful line lines (fullmatch is_digit (rstrip line)) hunk)
            | inr early ↦ rw (other, hunk, early) tt
          ]
        ]
      ]

  pub rest-shorter :
      {line : String} {lines out rest : List String} {repaired : ℕ}
      → Extends line lines out repaired rest
      → length rest ≤ length lines
  rest-shorter {line} {lines} {out} {rest} e =
      ground (arith, e.consumed, ap length e.consumed, length-append e.body rest)
