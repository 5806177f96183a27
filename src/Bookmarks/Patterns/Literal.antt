-- ===== src/Bookmarks/Patterns/Literal.antt =====
-- What a pattern of SQL's `LIKE … ESCAPE '\'` says, and that the pattern for a text says that text.
use backend_exercise.Prelude.{
  ◌≡◌, refl, sym, ap, Bool, true, false, inl, inr, Bool-cases, ◌&&◌, ◌||◌, eqb, eqb_iff,
  if◌then◌else◌,
}
use Prim.Native.String.{String, [], ◌∷◌, ◌++◌}
use Prim.Native.Char.{Char, code}
use text.Mathlib.TextLemmas.{nil-append, cons-append}
use text.Mathlib.TextEquality.{Char-path}
use backend_exercise.Bookmarks.Patterns.{
  backslash, percent, underscore, escape, literal_like_pattern,
}

pub data Token : Type 0 where
  literal : Char → Token
  anything one : Token

pub data Pattern : Type 0 where
  end : Pattern
  token : Token → Pattern → Pattern

abbrev pub is : Char → Char → Bool
is c x = eqb (code x) (code c)

-- The first argument says whether an escape stands before the text.
unfoldable pub parse : Bool → String → Pattern
parse escaped [] = end
parse true (x ∷ s) = token (literal x) (parse false s)
parse false (x ∷ s) =
    let quoted = parse true s in
    let rest = parse false s in
    if is backslash x
    then quoted
    else if is percent x
    then token anything rest
    else if is underscore x
    then token one rest
    else token (literal x) rest

-- Whether some end of the text passes a test.
unfoldable some_suffix : (String → Bool) → String → Bool
some_suffix test [] = test []
some_suffix test (x ∷ s) = test (x ∷ s) || some_suffix test s

-- LIKE, for characters that count as equal by `same`
unfoldable pub like : (Char → Char → Bool) → Pattern → String → Bool
unfolding some_suffix
like same end [] = true
like same end (x ∷ s) = false
like same (token anything p) s = some_suffix (like same p) s
like same (token one p) [] = false
like same (token one p) (x ∷ s) = like same p s
like same (token (literal c) p) [] = false
like same (token (literal c) p) (x ∷ s) = same c x && like same p s

-- An independent description: the text stands somewhere within the other.
unfoldable begins_with : (Char → Char → Bool) → String → String → Bool
begins_with same [] s = true
begins_with same (c ∷ v) [] = false
begins_with same (c ∷ v) (x ∷ s) = same c x && begins_with same v s

unfoldable pub contains : (Char → Char → Bool) → String → String → Bool
unfolding some_suffix begins_with
contains same v s = some_suffix (begins_with same v) s

abbrev escaped : String → String
escaped v = escape underscore (escape percent (escape backslash v))

abbrev literals : String → Pattern → Pattern
literals [] p = p
literals (c ∷ v) p = token (literal c) (literals v p)

is-eq : (c x : Char) → is c x ≡ true → c ≡ x
is-eq c x h = Char-path c x (sym ((eqb_iff (code x) (code c)).0 h))

parse-escaped : (v t : String) → parse false (escaped v ++ t) ≡ literals v (parse false t)
unfolding escape parse
parse-escaped [] t = rw (nil-append t) refl
parse-escaped (x ∷ v) t = elim (Bool-cases (is backslash x)) [
  | inl h ↦ rw h (
      rw (cons-append backslash (backslash ∷ escaped v) t) (
        rw (cons-append backslash (escaped v) t) (
          rw (parse-escaped v t)
            (ap (λ c. token (literal c) (literals v (parse false t))) (is-eq backslash x h)))))
  | inr b ↦ elim (Bool-cases (is percent x)) [
    | inl h ↦ rw b (
        rw h (
          rw (cons-append backslash (percent ∷ escaped v) t) (
            rw (cons-append percent (escaped v) t) (
              rw (parse-escaped v t)
                (ap (λ c. token (literal c) (literals v (parse false t))) (is-eq percent x h))))))
    | inr p ↦ elim (Bool-cases (is underscore x)) [
      | inl h ↦ rw b (
          rw p (
            rw h (
              rw (cons-append backslash (underscore ∷ escaped v) t) (
                rw (cons-append underscore (escaped v) t) (
                  rw (parse-escaped v t) (
                    ap (λ c. token (literal c) (literals v (parse false t)))
                      (is-eq underscore x h)))))))
      | inr u ↦ rw b (
          rw p (
            rw u (
              rw (cons-append x (escaped v) t)
                (rw b (rw p (rw u (ap (token (literal x)) (parse-escaped v t))))))))
    ]
  ]
]

some_suffix-cong :
    (f g : String → Bool) (s : String)
    → ((t : String) → f t ≡ g t)
    → some_suffix f s ≡ some_suffix g s
unfolding some_suffix
some_suffix-cong f g [] h = h []
some_suffix-cong f g (x ∷ s) h = rw (h (x ∷ s)) (ap (◌||◌ (g (x ∷ s))) (some_suffix-cong f g s h))

module _ (same : Char → Char → Bool) where
  some_suffix-end : (s : String) → some_suffix (like same end) s ≡ true
  unfolding some_suffix like
  some_suffix-end [] = refl
  some_suffix-end (x ∷ s) = some_suffix-end s

  like-literals :
      (v s : String) → like same (literals v (token anything end)) s ≡ begins_with same v s
  unfolding like begins_with
  like-literals [] s = some_suffix-end s
  like-literals (c ∷ v) [] = refl
  like-literals (c ∷ v) (x ∷ s) = ap (◌&&◌ (same c x)) (like-literals v s)

  -- A search finds its text literally. The pattern that `literal_like_pattern` makes of a text, read
  -- as LIKE reads it with the backslash as the escape, matches exactly the titles that contain the
  -- text, whatever characters are in it, and whatever characters LIKE takes for equal.
  pub like-literal_like_pattern :
      (value title : String)
      → like same (parse false (literal_like_pattern value)) title ≡ contains same value title
  unfolding literal_like_pattern like contains parse
  like-literal_like_pattern value title = rw (parse-escaped value (percent ∷ [])) (
      some_suffix-cong (like same (literals value (token anything end))) (begins_with same value)
        title (like-literals value))
