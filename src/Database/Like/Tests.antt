-- ===== src/Database/Like/Tests.antt =====
-- A search for a term with a wildcard in it.
use tr_shared_lib.Base.{true, [], ◌∷◌, ◌++◌, ◌≡◌, refl}
use tr_shared_lib.Base.Text.{codes, contains}
use tr_shared_lib.Base.Words.{replace}
use tr_shared_lib.Database.Like.{
  escape_like, token, tokens, somewhere, matches, like, like-escape_like,
}

escaped : escape_like (codes "5%_\\") ≡ codes "5\\%\\_\\\\"
unfolding escape_like replace
escaped = refl

unescaped : like (codes "%0%1%") (codes "a021") ≡ true
unfolding like tokens token matches somewhere
unescaped = refl

like-escape_like_example :
    like (37 ∷ (escape_like (codes "50%") ++ (37 ∷ []))) (codes "a 500 b")
    ≡ contains (codes "a 500 b") (codes "50%")
like-escape_like_example = like-escape_like (codes "50%") (codes "a 500 b")
