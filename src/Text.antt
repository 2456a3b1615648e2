-- ===== src/Text.antt =====
-- The parts of Go's strings and strconv packages that the code uses.
pub mod Decimal
use Prim.Native.String.{◌++◌ as append}
use Prim.Native.Char.{Char, code}
use digital_ocean_bot.Prelude.{
  ℕ, ◌+◌, String, Bool, true, false, ◌&&◌, ◌||◌, Option, none, some, List, [], ◌∷◌, map, leb, ◌==◌,
  if◌then◌else◌,
}

-- The code points of a text. `String` has its own `[]` and `∷`.
abbrev pub codes : String → List ℕ
codes String.[] = []
codes (String.◌∷◌ c s) = code c ∷ codes s

-- strings.ToLower, exact on every text for what its ASCII letters are: besides A to Z only U+0130
-- and U+212A are lowered to an ASCII letter. Other capitals stay; no text compared here has them.
unfoldable pub lower_code : ℕ → ℕ
lower_code c =
    if leb 65 c && leb c 90 then c + 32 else if c == 304 then 105 else if c == 8490 then 107 else c

abbrev pub to_lower : String → List ℕ
to_lower s = map lower_code (codes s)

-- Go's `+` on texts, over all the parts at once.
abbrev pub concat : List String → String
concat [] = String.[]
concat (s ∷ []) = s
concat (s ∷ t ∷ ts) = append s (concat (t ∷ ts))

-- strings.HasPrefix and strings.Contains
unfoldable pub has_prefix : List ℕ → List ℕ → Bool
has_prefix s [] = true
has_prefix [] (c ∷ t) = false
has_prefix (d ∷ s) (c ∷ t) = d == c && has_prefix s t

unfoldable pub contains : List ℕ → List ℕ → Bool
unfolding has_prefix
contains [] t = has_prefix [] t
contains (d ∷ s) t = has_prefix (d ∷ s) t || contains s t

-- unicode.IsSpace
unfoldable pub is_space : ℕ → Bool
is_space c =
    (leb 9 c && leb c 13)
    || c == 32
    || c == 133
    || c == 160
    || c == 5760
    || (leb 8192 c && leb c 8202)
    || c == 8232
    || c == 8233
    || c == 8239
    || c == 8287
    || c == 12288

abbrev pub cons_trimmed : Char → String → String
cons_trimmed c String.[] = if is_space (code c) then String.[] else String.◌∷◌ c String.[]
cons_trimmed c (String.◌∷◌ d s) = String.◌∷◌ c (String.◌∷◌ d s)

unfoldable pub trim_right : String → String
trim_right String.[] = String.[]
trim_right (String.◌∷◌ c s) = cons_trimmed c (trim_right s)

unfoldable pub trim_left : String → String
trim_left String.[] = String.[]
trim_left (String.◌∷◌ c s) = if is_space (code c) then trim_left s else String.◌∷◌ c s

-- strings.TrimSpace
unfoldable pub trim_space : String → String
unfolding trim_left trim_right is_space
trim_space s = trim_right (trim_left s)

-- What follows a prefix: strings.HasPrefix and strings.TrimPrefix in one.
unfoldable pub strip_prefix : String → String → Option String
strip_prefix s String.[] = some s
strip_prefix String.[] (String.◌∷◌ c p) = none
strip_prefix (String.◌∷◌ d s) (String.◌∷◌ c p) =
    let rest = strip_prefix s p in if code d == code c then rest else none
