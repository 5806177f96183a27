-- ===== src/Bookmarks/Examples.antt =====
-- A search for a text that is full of metacharacters.
use backend_exercise.Prelude.{◌≡◌, Bool, false, eqb}
use Prim.Native.Char.{Char, code}
use backend_exercise.Bookmarks.Patterns.{literal_like_pattern}
use backend_exercise.Bookmarks.Patterns.Literal.{parse, like, contains, like-literal_like_pattern}

abbrev same_char : Char → Char → Bool
same_char c d = eqb (code c) (code d)

like-literal_like_pattern_example :
    like same_char (parse false (literal_like_pattern "5%_\\")) "a 5%_\\ b"
    ≡ contains same_char "5%_\\" "a 5%_\\ b"
like-literal_like_pattern_example = like-literal_like_pattern same_char "5%_\\" "a 5%_\\ b"
