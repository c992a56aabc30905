-- ===== src/Text.antt =====
-- Texts as the program cuts them.
use text.Mathlib.Text.{◌==◌ as str_eq}
use code_mate.Prelude.{ℕ, zero, suc, String, Bool, true, false, ◌&&◌}

-- `text[:n]`
unfoldable pub take : ℕ → String → String
take zero s = ""
take (suc n) String.[] = ""
take (suc n) (String.◌∷◌ c s) = String.◌∷◌ c (take n s)

-- `len(text)`
unfoldable pub length : String → ℕ
length String.[] = 0
length (String.◌∷◌ c s) = suc (length s)

-- `text.startswith(part)`
unfoldable pub starts_with : String → String → Bool
starts_with s String.[] = true
starts_with String.[] (String.◌∷◌ c part) = false
starts_with (String.◌∷◌ d s) (String.◌∷◌ c part) =
    str_eq (String.◌∷◌ d String.[]) (String.◌∷◌ c String.[]) && starts_with s part
