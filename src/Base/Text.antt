-- ===== src/Base/Text.antt =====
-- Python's `str` where the program looks inside a text: a list of code points. `lower` is that of
-- ASCII, which is what header values and signatures are.
use Prim.Native.Nat.{ℕ, zero, suc, ◌+◌, ◌/◌, ◌%◌, ◌≤◌}
use mathlib.Core.Path.{◌≡◌, refl}
use Prim.Native.Char.{code}
use Prim.Native.String
use Prim.Native.String.{String}
use native.Mathlib.Omega.{arith}
use text.Mathlib.Text.{◌==◌ as str_eq}
use mathlib.Core.Bool.{Bool, true, false, ◌&&◌, ◌||◌}
use mathlib.Core.List.{List, [], ◌∷◌, map, reverse}
use tr_shared_lib.Base.Tests.{leb, ◌==◌, if◌then◌else◌}

abbrev pub Text : Type 0
Text = List ℕ

abbrev pub codes : String → Text
codes String.[] = []
codes (String.◌∷◌ c s) = code c ∷ codes s

abbrev pub lower_code : ℕ → ℕ
lower_code c = if leb b'A' c && leb c b'Z' then c + 32 else c

abbrev pub lower : Text → Text
lower = map lower_code

-- `==` of two texts
abbrev pub same_text : Text → Text → Bool
same_text [] [] = true
same_text [] (d ∷ t) = false
same_text (c ∷ s) [] = false
same_text (c ∷ s) (d ∷ t) = c == d && same_text s t

-- `text.startswith(prefix)`
abbrev pub starts_with : Text → Text → Bool
starts_with text [] = true
starts_with [] (p ∷ ps) = false
starts_with (c ∷ cs) (p ∷ ps) = c == p && starts_with cs ps

abbrev pub ends_with : Text → Text → Bool
ends_with text suffix = starts_with (reverse text) (reverse suffix)

-- `part in text`
abbrev pub contains : Text → Text → Bool
contains [] part = starts_with [] part
contains (c ∷ cs) part = starts_with (c ∷ cs) part || contains cs part

-- `text[:-2]`
abbrev pub drop_last_two : Text → Text
drop_last_two [] = []
drop_last_two (a ∷ []) = []
drop_last_two (a ∷ b ∷ []) = []
drop_last_two (a ∷ b ∷ c ∷ cs) = a ∷ drop_last_two (b ∷ c ∷ cs)

abbrev digit : ℕ → String
digit zero = "0"
digit (suc zero) = "1"
digit (suc (suc zero)) = "2"
digit (suc (suc (suc zero))) = "3"
digit (suc (suc (suc (suc zero)))) = "4"
digit (suc (suc (suc (suc (suc zero))))) = "5"
digit (suc (suc (suc (suc (suc (suc zero)))))) = "6"
digit (suc (suc (suc (suc (suc (suc (suc zero))))))) = "7"
digit (suc (suc (suc (suc (suc (suc (suc (suc zero)))))))) = "8"
digit _ = "9"

-- The digits of `n` in front of `out`; a round divides by ten, so `n` rounds are enough.
digits_from : ℕ → ℕ → String → String
digits_from zero n out = out
digits_from (suc fuel) n out = elim (n == 0) [
  | true ↦ out
  | false ↦ digits_from fuel (n / 10) (String.◌++◌ (digit (n % 10)) out)
]

-- `str(n)`
unfoldable pub str : ℕ → String
unfolding digits_from
str n = if n == 0 then "0" else digits_from n n ""

-- One more round than the number itself changes nothing.
digits_from_fuel :
    (fuel n : ℕ) (out : String) → n ≤ fuel → digits_from (suc fuel) n out ≡ digits_from fuel n out
unfolding digits_from
digits_from_fuel zero n out h = ground arith
digits_from_fuel (suc fuel) n out h =
    ground (arith, digits_from_fuel fuel (n / 10) (String.◌++◌ (digit (n % 10)) out))

str_1205 : str 1205 ≡ "1205"
unfolding str
str_1205 = refl

-- `":".join(p for p in parts if p)`
unfoldable pub join_nonempty : List String → String
join_nonempty [] = ""
join_nonempty (p ∷ ps) =
    let rest = join_nonempty ps in
    if str_eq p "" then rest else if str_eq rest "" then p else String.◌++◌ p (String.◌++◌ ":" rest)
