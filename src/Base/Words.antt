-- ===== src/Base/Words.antt =====
-- Python's `strip`, `split`, `split(sep)`, `partition` and `replace` on texts, where the separator is
-- one character.
use Prim.Native.Nat.{ℕ}
use mathlib.Core.Path.{◌≡◌, refl}
use mathlib.Core.Bool.{Bool, true, false, ◌&&◌, ◌||◌}
use mathlib.Core.List.{List, [], ◌∷◌, ◌++◌, reverse}
use native.Mathlib.Omega.{arith}
use tr_shared_lib.Base.Tests.{leb, ◌==◌, if◌then◌else◌}
use tr_shared_lib.Base.Text.{Text, same_text}

-- `str.isspace` of a character
unfoldable pub is_space : ℕ → Bool
is_space c =
    (leb 9 c && leb c 13)
    || (leb 28 c && leb c 32)
    || c == 133
    || c == 160
    || c == 5760
    || (leb 8192 c && leb c 8202)
    || c == 8232
    || c == 8233
    || c == 8239
    || c == 8287
    || c == 12288

-- `text.lstrip()`
unfoldable pub strip_left : Text → Text
strip_left [] = []
strip_left (c ∷ cs) = let rest = strip_left cs in if is_space c then rest else c ∷ cs

-- `text.strip()`
unfoldable pub strip : Text → Text
strip text = reverse (strip_left (reverse (strip_left text)))

-- a character more on the first of the words
unfoldable pub extend : ℕ → List Text → List Text
extend c [] = (c ∷ []) ∷ []
extend c (word ∷ words) = (c ∷ word) ∷ words

-- `text.split(sep)`
unfoldable pub split_on : ℕ → Text → List Text
split_on sep [] = [] ∷ []
split_on sep (c ∷ cs) = let rest = split_on sep cs in if c == sep then [] ∷ rest else extend c rest

-- the words between blanks, empty ones between two blanks included
unfoldable pub blanks : Text → List Text
blanks [] = [] ∷ []
blanks (c ∷ cs) = let rest = blanks cs in if is_space c then [] ∷ rest else extend c rest

unfoldable pub drop_empty : List Text → List Text
drop_empty [] = []
drop_empty ([] ∷ words) = drop_empty words
drop_empty ((c ∷ cs) ∷ words) = (c ∷ cs) ∷ drop_empty words

-- `text.split()`
unfoldable pub words : Text → List Text
words text = drop_empty (blanks text)

-- `head, _, tail = text.partition(sep)`
unfoldable pub partition : ℕ → Text → Text × Text
partition sep [] = ([], [])
partition sep (c ∷ cs) =
    let rest = partition sep cs in if c == sep then ([], cs) else (c ∷ rest.0, rest.1)

-- `text.replace(c, by)`
unfoldable pub replace : ℕ → Text → Text → Text
replace old by [] = []
replace old by (c ∷ cs) = let rest = replace old by cs in if c == old then by ++ rest else c ∷ rest

abbrev pub Avoids : ℕ → Text → Type 0
Avoids sep [] = Unit
Avoids sep (c ∷ cs) = (c == sep ≡ false) × Avoids sep cs

abbrev pub IsWord : Text → Type 0
IsWord [] = Unit
IsWord (c ∷ cs) = (is_space c ≡ false) × IsWord cs

pub split_on-append :
    (sep : ℕ) (text rest : Text)
    → Avoids sep text
    → split_on sep (text ++ (sep ∷ rest)) ≡ text ∷ split_on sep rest
unfolding split_on extend
split_on-append sep [] rest h = ground arith
split_on-append sep (c ∷ cs) rest h = ground (arith, h.0, split_on-append sep cs rest h.1)

pub partition-append :
    (sep : ℕ) (text rest : Text)
    → Avoids sep text
    → partition sep (text ++ (sep ∷ rest)) ≡ (text, rest)
unfolding partition
partition-append sep [] rest h = ground arith
partition-append sep (c ∷ cs) rest h = ground (arith, h.0, partition-append sep cs rest h.1)

pub blanks-word : (word : Text) → IsWord word → blanks word ≡ word ∷ []
unfolding blanks extend
blanks-word [] h = refl
blanks-word (c ∷ cs) h = ground (arith, h.0, blanks-word cs h.1)

pub blanks-append :
    (word rest : Text) → IsWord word → blanks (word ++ (32 ∷ rest)) ≡ word ∷ blanks rest
unfolding blanks extend is_space
blanks-append [] rest h = refl
blanks-append (c ∷ cs) rest h = ground (arith, h.0, blanks-append cs rest h.1)

pub same_text_refl : (a : Text) → same_text a a ≡ true
same_text_refl [] = refl
same_text_refl (c ∷ a) = ground (arith, same_text_refl a)

pub same_text-eq : (a b : Text) → same_text a b ≡ true → a ≡ b
same_text-eq [] [] h = refl
same_text-eq [] (d ∷ b) h = ground (arith, h)
same_text-eq (c ∷ a) [] h = ground (arith, h)
same_text-eq (c ∷ a) (d ∷ b) h = ground (arith, h, same_text-eq a b)
