-- ===== src/Glob/Tests.antt =====
-- Runs of stringmatchlen, and its theorem at a concrete pattern.
use commit_redis.Prelude.{◌≡◌, refl, true, false, none, some, [], ◌∷◌}
use commit_redis.Objects.{same_text}
use commit_redis.Glob.Defs.{stringmatchlen, match_loop, match_class, class_loop, class_case}
use commit_redis.Glob.Literal.{ended, stringmatchlen_literal}

-- `n*s` against `news`.
star :
    stringmatchlen
      (λ c. c)
      (ended (b'n' ∷ b'*' ∷ b's' ∷ []))
      (ended (b'n' ∷ b'e' ∷ b'w' ∷ b's' ∷ []))
      false
    ≡ some true
unfolding stringmatchlen match_loop
star = refl

-- `[^a-c]` against `b`.
class :
    stringmatchlen
      (λ c. c)
      (ended (b'[' ∷ b'^' ∷ b'a' ∷ b'-' ∷ b'c' ∷ b']' ∷ []))
      (ended (b'b' ∷ []))
      false
    ≡ some false
unfolding stringmatchlen match_loop match_class class_loop class_case
class = refl

-- A class that ends after a backslash is read past the end of the pattern.
open_escape : stringmatchlen (λ c. c) (ended (b'[' ∷ b'\\' ∷ [])) (ended (b'x' ∷ [])) false ≡ none
unfolding stringmatchlen match_loop match_class class_loop class_case
open_escape = refl

stringmatchlen_literal_example :
    stringmatchlen (λ c. c) (ended (b'n' ∷ b'o' ∷ [])) (ended (b'n' ∷ b'e' ∷ [])) false
    ≡ some (same_text (b'n' ∷ b'o' ∷ []) (b'n' ∷ b'e' ∷ []))
stringmatchlen_literal_example =
    stringmatchlen_literal (λ c. c) (b'n' ∷ b'o' ∷ []) (b'n' ∷ b'e' ∷ []) refl
