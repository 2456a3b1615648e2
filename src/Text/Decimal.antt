-- ===== src/Text/Decimal.antt =====
-- strconv.Itoa and strconv.Atoi.
use Prim.Native.Char.{Char, code}
use digital_ocean_bot.Prelude.{
  ℕ, zero, suc, ◌+◌, ◌-◌, ◌*◌, ◌/◌, ◌%◌, ◌^◌, String, ◌≡◌, refl, Bool, true, false, ◌&&◌, Option,
  none, some, ltb, leb, ◌==◌, if◌then◌else◌,
}
use digital_ocean_bot.Prelude.Int.{ℤ, pos, negsuc, ◌-ℤ◌}

-- The digit's character.
abbrev pub digit : ℕ → Char
digit zero = "0"
digit (suc zero) = "1"
digit (suc (suc zero)) = "2"
digit (suc (suc (suc zero))) = "3"
digit (suc (suc (suc (suc zero)))) = "4"
digit (suc (suc (suc (suc (suc zero))))) = "5"
digit (suc (suc (suc (suc (suc (suc zero)))))) = "6"
digit (suc (suc (suc (suc (suc (suc (suc zero))))))) = "7"
digit (suc (suc (suc (suc (suc (suc (suc (suc zero)))))))) = "8"
digit _ = "9"

-- The digits of n in front of `rest`; n + 1 rounds are enough.
unfoldable pub print : ℕ → ℕ → String → String
print zero n rest = rest
print (suc fuel) n rest =
    let rest' = String.◌∷◌ (digit (n % 10)) rest in
    let more = print fuel (n / 10) rest' in if ltb n 10 then rest' else more

unfoldable pub itoa : ℤ → String
unfolding print
itoa (pos n) = print (suc n) n String.[]
itoa (negsuc n) = String.◌∷◌ "-" (print (suc (suc n)) (suc n) String.[])

-- The digits' value after `acc`; `none` at any other character.
unfoldable pub read : ℕ → String → Option ℕ
read acc String.[] = some acc
read acc (String.◌∷◌ c s) =
    let rest = read (acc * 10 + (code c - 48)) s in
    if leb 48 (code c) && leb (code c) 57 then rest else none

-- At least one digit.
unfoldable pub read_digits : String → Option ℕ
unfolding read
read_digits String.[] = none
read_digits (String.◌∷◌ c s) = read 0 (String.◌∷◌ c s)

abbrev pub in_range : ℕ → Option ℕ → Option ℕ
in_range limit none = none
in_range limit (some n) = if leb n limit then some n else none

abbrev pub signed : Bool → Option ℕ → Option ℤ
signed minus none = none
signed true (some n) = some (pos 0 -ℤ pos n)
signed false (some n) = some (pos n)

-- An optional sign, then digits, within int64; `none` is the *NumError.
unfoldable pub atoi : String → Option ℤ
unfolding read_digits ◌-ℤ◌
atoi String.[] = none
atoi (String.◌∷◌ c s) =
    if code c == b'-'
    then signed true (in_range (2 ^ 63) (read_digits s))
    else if code c == b'+'
    then signed false (in_range (2 ^ 63 - 1) (read_digits s))
    else signed false (in_range (2 ^ 63 - 1) (read_digits (String.◌∷◌ c s)))

prints : itoa (negsuc 1023) ≡ "-1024"
unfolding itoa
prints = refl

reads : atoi "-1024" ≡ some (negsuc 1023)
unfolding atoi
reads = refl
