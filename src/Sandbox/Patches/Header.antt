-- ===== src/Sandbox/Patches/Header.antt =====
-- The header of a hunk (backend/app/sandbox/patches.py): the expression `_HUNK_HEADER`, and the
-- header that is written with the right counts.
use text.Mathlib.Text.{◌==◌ as str_eq}
use Prim.Native.String.{◌++◌ as str_append}
use code_mate.Prelude.{◌>>=◌, ℕ, String, Bool, ◌&&◌, ◌||◌, Option, none, some, if◌then◌else◌}

-- The five groups of the expression.
pub record HunkHeader : Type 0 where
  pub old_start : String
  pub old_count : Option String
  pub new_start : String
  pub new_count : Option String
  pub suffix : String

-- `text.rstrip("\r\n")`
unfoldable pub rstrip : String → String
rstrip String.[] = ""
rstrip (String.◌∷◌ c s) =
    let rest = rstrip s in
    let first = String.◌∷◌ c String.[] in
    if str_eq rest "" && (str_eq first "\r" || str_eq first "\n") then "" else String.◌∷◌ c rest

-- `text.endswith(part)`
unfoldable pub ends_with : String → String → Bool
ends_with String.[] part = str_eq "" part
ends_with (String.◌∷◌ c s) part = str_eq (String.◌∷◌ c s) part || ends_with s part

-- The line break that a line ends with.
abbrev pub newline_of : String → String
newline_of line = if ends_with line "\r\n" then "\r\n" else if ends_with line "\n" then "\n" else ""

-- What follows a literal part of the expression.
unfoldable pub after : String → String → Option String
after String.[] s = some s
after (String.◌∷◌ p part) String.[] = none
after (String.◌∷◌ p part) (String.◌∷◌ c s) =
    let rest = after part s in
    if str_eq (String.◌∷◌ c String.[]) (String.◌∷◌ p String.[]) then rest else none

module _ (is_digit : String → Bool) where
  -- `\d*`, and what follows.
  unfoldable pub digits : String → String × String
  digits String.[] = ("", "")
  digits (String.◌∷◌ c s) =
      let rest = digits s in
      if is_digit (String.◌∷◌ c String.[])
      then (String.◌∷◌ c rest.0, rest.1)
      else ("", String.◌∷◌ c s)

  -- `(\d+)`
  abbrev pub number : String → Option (String × String)
  number s = if str_eq (digits s).0 "" then none else some (digits s)

  -- `(?:,(\d+))?`: without digits after a comma, the group matches nothing.
  abbrev pub count_group : String → Option String × String
  count_group s = elim (after "," s) [
    | none ↦ (none, s)
    | some rest ↦ elim (number rest) [ none ↦ (none, s) | some (n, left) ↦ (some n, left) ]
  ]

  -- `_HUNK_HEADER.fullmatch(header_text)`
  unfoldable pub fullmatch : String → Option HunkHeader
  fullmatch s = do
    a ← after "@@ -" s
    old ← number a
    b ← after " +" (count_group old.1).1
    new ← number b
    c ← after " @@" (count_group new.1).1
    some (record {
      old_start = old.0;
      old_count = (count_group old.1).0;
      new_start = new.0;
      new_count = (count_group new.1).0;
      suffix = c;
    })

-- The header with the counts of the body.
abbrev pub repaired_header : (ℕ → String) → HunkHeader → ℕ → ℕ → String → String
repaired_header text h old_count new_count newline = str_append "@@ -" (
    str_append h.old_start (
      str_append "," (
        str_append (text old_count) (
          str_append " +" (
            str_append h.new_start (
              str_append ","
                (str_append (text new_count) (str_append " @@" (str_append h.suffix newline)))))))))
