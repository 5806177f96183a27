-- ===== src/Bookmarks/Patterns.antt =====
-- `literal_like_pattern` of app/bookmarks/policy.py: text that a user searches for, as a pattern of
-- SQL's LIKE.
pub mod Literal
use backend_exercise.Prelude.{eqb, if◌then◌else◌}
use Prim.Native.String.{String, [], ◌∷◌, ◌++◌}
use Prim.Native.Char.{Char, code}

-- `value.replace(c, "\\" + c)`
abbrev pub backslash : Char
backslash = "\\"

abbrev pub percent : Char
percent = "%"

abbrev pub underscore : Char
underscore = "_"

unfoldable pub escape : Char → String → String
escape c [] = []
escape c (x ∷ s) =
    let rest = escape c s in if eqb (code x) (code c) then backslash ∷ (c ∷ rest) else x ∷ rest

-- `literal_like_pattern`
unfoldable pub literal_like_pattern : String → String
unfolding escape
literal_like_pattern value =
    percent ∷ (escape underscore (escape percent (escape backslash value)) ++ (percent ∷ []))
