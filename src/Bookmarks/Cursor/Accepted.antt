-- ===== src/Bookmarks/Cursor/Accepted.antt =====
-- What a cursor is that is decoded.
use backend_exercise.Prelude.{
  ℕ, ◌≤◌, ◌≡◌, ◌∙◌, refl, sym, ap, subst, ◌&&◌, true, Option, none, some, List, Result, ok, raise,
  value_error, invalid_cursor_error, arith, eqb, leb, require, string_eq, ◌==◌, ◌>>=◌, ◌>>◌,
  >>=-eq-ok, >>-eq-ok, ok-inj, Bool-cases, inl, inr, eqb_iff,
}
use Prim.Native.String.{String, [], ◌∷◌, ◌++◌, count}
use Prim.Native.Char.{Char, code}
use text.Mathlib.TextLemmas.{nil-append, cons-append}
use text.Mathlib.TextEquality.{Char-path}
use backend_exercise.Clock.{DateTime}
use backend_exercise.Bookmarks.Models.{BookmarkQuery, CursorBoundary}
use backend_exercise.Bookmarks.Cursor.{
  CursorLibrary, Json, object, is_b64, dot, split_dot, prepend, token_parts, payload_of,
  signature_of, sealed_token, b64decode, checked, opened, or_invalid, decode,
}
use backend_exercise.Bookmarks.Cursor.Fields.{HasFields, require-eq-ok, checked-HasFields}

module _ (lib : CursorLibrary) (ttl owner_id : ℕ) (query : BookmarkQuery) (now : DateTime) where
  -- The payload that a token seals.
  b64decode-eq-ok : (s : String) (x : lib.Bytes) → b64decode lib ttl s ≡ ok x → lib.b64encode x ≡ s
  b64decode-eq-ok s x h =
      let (y, _, h1) =
        >>=-eq-ok (lib.urlsafe_b64decode s)
          (λ y. require (lib.b64encode y == s) value_error >> ok y)
          (>>-eq-ok (require (is_b64 s) value_error) _ h) in
      let (u, same, h2) = >>=-eq-ok (require (lib.b64encode y == s) value_error) (λ u. ok y) h1 in
      ap lib.b64encode (sym (ok-inj y x h2))
      ∙ (string_eq.beq_iff (lib.b64encode y) s).0 (require-eq-ok (lib.b64encode y == s) u same)

  opened-eq-ok :
      (encoded signature : String) (b : CursorBoundary)
      → opened lib ttl owner_id query now (encoded, signature) ≡ ok b
      → (fields : List (String × Json)) × (signature ≡ signature_of lib ttl encoded)
        × (encoded ≡ lib.b64encode (lib.dumps (object fields)))
        × HasFields lib ttl owner_id query now fields b
  unfolding opened
  opened-eq-ok encoded signature b h =
      let expected : lib.Bytes = lib.digest (lib.ascii encoded) in
      let check = λ (bytes : lib.Bytes) (fields : List (String × Json)).
        (require (lib.bytes_eq.beq (lib.dumps (object fields)) bytes) value_error
          >> checked lib ttl owner_id query now fields) in
      let load = λ (bytes : lib.Bytes).
        (lib.loads bytes >>= λ document. payload_of document >>= check bytes) in
      let (given, g, h1) =
        >>=-eq-ok (b64decode lib ttl signature)
          (λ given.
            require (lib.bytes_eq.beq given expected) value_error
            >> (b64decode lib ttl encoded >>= load))
          h in
      let (u, signed, h2) =
        >>=-eq-ok (require (lib.bytes_eq.beq given expected) value_error)
          (λ u. b64decode lib ttl encoded >>= load) h1 in
      let (bytes, e, h3) = >>=-eq-ok (b64decode lib ttl encoded) load h2 in
      let (document, _, h4) =
        >>=-eq-ok (lib.loads bytes) (λ document. payload_of document >>= check bytes) h3 in
      let (fields, _, h5) = >>=-eq-ok (payload_of document) (check bytes) h4 in
      let (v, canonical, h6) =
        >>=-eq-ok (require (lib.bytes_eq.beq (lib.dumps (object fields)) bytes) value_error)
          (λ v. checked lib ttl owner_id query now fields) h5 in
      (
        fields,
        sym (b64decode-eq-ok signature given g)
            ∙ ap lib.b64encode ((lib.bytes_eq.beq_iff given expected).0 (require-eq-ok _ u signed)),
        sym (b64decode-eq-ok encoded bytes e)
            ∙ ap lib.b64encode (
                sym (
                  (lib.bytes_eq.beq_iff (lib.dumps (object fields)) bytes).0
                    (require-eq-ok _ v canonical))),
        checked-HasFields lib ttl owner_id query now fields b h6,
      )

  valid-eq-ok :
      (value : String) (parts : Option (String × String)) (b : CursorBoundary)
      → ((s t : String) → parts ≡ some (s, t) → value ≡ s ++ (dot ∷ t))
      → (token_parts parts >>= opened lib ttl owner_id query now) ≡ ok b
      → (fields : List (String × Json)) × (value
          ≡ sealed_token lib ttl (lib.b64encode (lib.dumps (object fields))))
        × HasFields lib ttl owner_id query now fields b
  valid-eq-ok value none b joined h = cc
  valid-eq-ok value (some (encoded, signature)) b joined h =
      let ((s, t), e, h1) =
        >>=-eq-ok (token_parts (some (encoded, signature))) (opened lib ttl owner_id query now) h in
      let same : (encoded, signature) ≡ (s, t) =
        ok-inj (encoded, signature) (s, t)
          (>>-eq-ok (require (is_b64 encoded && is_b64 signature) value_error) _ e) in
      let (fields, signed, packed, has) = opened-eq-ok s t b h1 in
      (
        fields,
        joined s t (ap some same)
            ∙ (ap (λ x. s ++ (dot ∷ x)) signed ∙ ap (sealed_token lib ttl) packed),
        has,
      )

abbrev known : String × String → Option (String × String) → String × String
known x none = x
known x (some y) = y

some-inj : (x y : String × String) → ◌≡◌ {A = Option (String × String)} (some x) (some y) → x ≡ y
some-inj x y h = ap (known x) h

head-same : (c : Char) → eqb (code c) (code dot) ≡ true → c ≡ dot
head-same c h = Char-path c dot ((eqb_iff (code c) (code dot)).0 h)

prepended :
    (c : Char) (v : String) (found : Option (String × String)) (s t : String)
    → ((r q : String) → found ≡ some (r, q) → v ≡ r ++ (dot ∷ q))
    → prepend c found ≡ some (s, t)
    → (c ∷ v) ≡ s ++ (dot ∷ t)
prepended c v none s t joined h = cc
prepended c v (some (r, q)) s t joined h =
    let same : ◌≡◌ {A = String × String} (c ∷ r, q) (s, t) = some-inj (c ∷ r, q) (s, t) h in
    subst (λ (x : String × String). (c ∷ v) ≡ x.0 ++ (dot ∷ x.1)) same
      (ap (λ x. c ∷ x) (joined r q refl) ∙ sym (cons-append c r (dot ∷ q)))

split_dot-eq-some : (v s t : String) → split_dot v ≡ some (s, t) → v ≡ s ++ (dot ∷ t)
unfolding split_dot
split_dot-eq-some [] s t h = cc
split_dot-eq-some (c ∷ v) s t h = elim (Bool-cases (eqb (code c) (code dot))) [
  | inl e ↦
      subst (λ (x : String × String). (c ∷ v) ≡ x.0 ++ (dot ∷ x.1))
        (some-inj ([], v) (s, t) (rw e at h))
        (ap (λ x. x ∷ v) (head-same c e) ∙ sym (nil-append (dot ∷ v)))
  | inr e ↦ prepended c v (split_dot v) s t (λ r q. split_dot-eq-some v r q) (rw e at h)
]

abbrev pub DecodeOutcome :
    CursorLibrary
    → (ttl : ℕ) → String
    → (owner_id : ℕ) → BookmarkQuery
    → DateTime
    → Result CursorBoundary
    → Type 0
DecodeOutcome lib ttl value owner_id query now (raise error) = error ≡ invalid_cursor_error
DecodeOutcome lib ttl value owner_id query now (ok b) =
    (count value ≤ 2048)
    × ((fields : List (String × Json)) × (value
          ≡ sealed_token lib ttl (lib.b64encode (lib.dumps (object fields))))
        × HasFields lib ttl owner_id query now fields b)

outcome_of :
    (lib : CursorLibrary) (ttl : ℕ) (value : String) (owner_id : ℕ) (query : BookmarkQuery)
    (now : DateTime) (r : Result CursorBoundary)
    → (require (leb (count value) 2048) value_error
        >> (token_parts (split_dot value) >>= opened lib ttl owner_id query now))
      ≡ r
    → DecodeOutcome lib ttl value owner_id query now (or_invalid lib ttl r)
outcome_of lib ttl value owner_id query now (raise error) h = refl
outcome_of lib ttl value owner_id query now (ok b) h =
    let (u, fits, h1) =
      >>=-eq-ok (require (leb (count value) 2048) value_error)
        (λ u. token_parts (split_dot value) >>= opened lib ttl owner_id query now) h in
    (
      ground (arith, require-eq-ok _ u fits),
      valid-eq-ok lib ttl owner_id query now value (split_dot value) b (split_dot-eq-some value) h1,
    )

-- A token that is decoded is one that the codec's key signs, of at most 2048 characters: the canonical
-- text of a payload with its signature. The payload is bound to the owner, the query's filters and page
-- size, and the time to live; it has been issued and has not expired; and the boundary is the one in it.
-- Every other token raises the one error of an invalid cursor.
pub decode-DecodeOutcome :
    (lib : CursorLibrary) (ttl : ℕ) (value : String) (owner_id : ℕ) (query : BookmarkQuery)
    (now : DateTime)
    → DecodeOutcome lib ttl value owner_id query now (decode lib ttl value owner_id query now)
unfolding decode
decode-DecodeOutcome lib ttl value owner_id query now =
    outcome_of lib ttl value owner_id query now
      (require (leb (count value) 2048) value_error
        >> (token_parts (split_dot value) >>= opened lib ttl owner_id query now))
      refl
