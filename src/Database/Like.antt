-- ===== src/Database/Like.antt =====
-- `escape_like` of src/tr_shared/db/utils.py, and what SQL's LIKE with the escape character `\` makes of
-- a pattern.
mod Tests
use tr_shared_lib.Base.{
  ℕ, Bool, true, false, ◌&&◌, ◌||◌, List, [], ◌∷◌, ◌++◌, map, ◌==◌, if◌then◌else◌, ◌≡◌, refl, sym,
  ap, ◌∙◌, arith, Bool-cases, inl, inr,
}
use tr_shared_lib.Base.Text.{Text, starts_with, contains}
use tr_shared_lib.Base.Words.{replace}
use mathlib.Core.List.{append_assoc}

abbrev like_escape_char : ℕ
like_escape_char = 92

abbrev percent : ℕ
percent = 37

abbrev underscore : ℕ
underscore = 95

unfoldable pub escape_like : Text → Text
escape_like value = replace underscore (like_escape_char ∷ underscore ∷ []) (
    replace percent (like_escape_char ∷ percent ∷ [])
      (replace like_escape_char (like_escape_char ∷ like_escape_char ∷ []) value))

-- what a pattern is made of
pub data Token : Type 0 where
  any_text any_character : Token
  literal : ℕ → Token

unfoldable pub token : ℕ → Token
token c = if c == percent then any_text else if c == underscore then any_character else literal c

-- the rest of a pattern, after an escape character or not
unfoldable pub tokens : Bool → Text → List Token
tokens escaped [] = []
tokens true (c ∷ pattern) = literal c ∷ tokens false pattern
tokens false (c ∷ pattern) = elim (c == like_escape_char) [
  | true ↦ tokens true pattern
  | false ↦ token c ∷ tokens false pattern
]

unfoldable pub somewhere : (Text → Bool) → Text → Bool
somewhere p [] = p []
somewhere p (c ∷ text) = p (c ∷ text) || somewhere p text

unfoldable pub matches : List Token → Text → Bool
matches [] [] = true
matches [] (d ∷ text) = false
matches (any_text ∷ pattern) text = somewhere (matches pattern) text
matches (any_character ∷ pattern) [] = false
matches (any_character ∷ pattern) (d ∷ text) = matches pattern text
matches (literal c ∷ pattern) [] = false
matches (literal c ∷ pattern) (d ∷ text) = c == d && matches pattern text

-- `text LIKE pattern ESCAPE '\'`
unfoldable pub like : Text → Text → Bool
like pattern text = matches (tokens false pattern) text

-- what becomes of one character
escape_character : ℕ → Text
escape_character c =
    if c == like_escape_char || c == percent || c == underscore
    then like_escape_char ∷ c ∷ []
    else c ∷ []

escape_like-cons :
    (c : ℕ) (value : Text) → escape_like (c ∷ value) ≡ escape_character c ++ escape_like value
unfolding escape_like replace escape_character
escape_like-cons c value = ground arith

tokens-character :
    (c : ℕ) (rest : Text)
    → tokens false (escape_character c ++ rest) ≡ literal c ∷ tokens false rest
unfolding tokens token escape_character
tokens-character c rest = ground arith

tokens-escape_like :
    (value rest : Text)
    → tokens false (escape_like value ++ rest) ≡ map literal value ++ tokens false rest
tokens-escape_like [] rest = unfold escape_like replace in refl
tokens-escape_like (c ∷ value) rest = rw (escape_like-cons c value) (
    rw (append_assoc (escape_character c) (escape_like value) rest) (
      tokens-character c (escape_like value ++ rest)
      ∙ ap (λ (ts : List Token). literal c ∷ ts) (tokens-escape_like value rest)))

somewhere_end : (text : Text) → somewhere (matches []) text ≡ true
unfolding somewhere matches
somewhere_end [] = refl
somewhere_end (c ∷ text) = ground (arith, somewhere_end text)

matches-literals :
    (value text : Text)
    → matches (map literal value ++ (any_text ∷ [])) text ≡ starts_with text value
unfolding matches
matches-literals [] text = somewhere_end text
matches-literals (c ∷ value) [] = refl
matches-literals (c ∷ value) (d ∷ text) = ground (arith, matches-literals value text)

somewhere-literals :
    (value text : Text)
    → somewhere (matches (map literal value ++ (any_text ∷ []))) text ≡ contains text value
unfolding somewhere
somewhere-literals value [] = matches-literals value []
somewhere-literals value (c ∷ text) =
    ground (arith, matches-literals value (c ∷ text), somewhere-literals value text)

-- A search with an escaped term between two `%` finds exactly the texts that contain the term, whatever
-- wildcards and escape characters stand in it.
pub like-escape_like :
    (value text : Text)
    → like (percent ∷ (escape_like value ++ (percent ∷ []))) text ≡ contains text value
unfolding like tokens token matches
like-escape_like value text =
    rw (tokens-escape_like value (percent ∷ [])) (somewhere-literals value text)
