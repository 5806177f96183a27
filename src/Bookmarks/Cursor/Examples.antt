-- ===== src/Bookmarks/Cursor/Examples.antt =====
-- The codec over a library that writes bytes as lists of numbers and those in unary.
use backend_exercise.Prelude.{
  ℕ, zero, suc, ◌+◌, ◌*◌, ◌≡◌, ◌↔◌, ◌∙◌, refl, ap, Bool, true, false, none, List, [], ◌∷◌, Result,
  ok, raise, value_error, arith, ◌&&◌, eqb, nat_eq, if◌then◌else◌,
}
use Prim.Native.String.{String, [], ◌∷◌, count}
use Prim.Native.String.count
use Prim.Native.Char.{code}
use backend_exercise.Clock.{utc, normalize_utc, normalize_utc-utc, second}
use backend_exercise.Bookmarks.Models.{BookmarkQuery, CursorBoundary}
use backend_exercise.Bookmarks.Cursor.{
  CursorLibrary, Json, number, negative, str, Document, object, all_url_safe, is_b64, payload,
  signed, encode, sealed_token, decode, epoch, seconds_after, seconds_before,
}
use backend_exercise.Bookmarks.Cursor.Issued.{IsCursorLibrary, decode-encode}
use backend_exercise.Bookmarks.Cursor.Accepted.{DecodeOutcome, decode-DecodeOutcome}

abbrev same_numbers : List ℕ → List ℕ → Bool
same_numbers [] [] = true
same_numbers (m ∷ l) (n ∷ k) = eqb m n && same_numbers l k
same_numbers _ _ = false

pub same_numbers_iff : (j k : List ℕ) → (same_numbers j k ≡ true) ↔ (j ≡ k)
same_numbers_iff [] [] = ground arith
same_numbers_iff [] (n ∷ k) = ground arith
same_numbers_iff (m ∷ l) [] = ground arith
same_numbers_iff (m ∷ l) (n ∷ k) = ground (arith, same_numbers_iff l k)

abbrev strokes : ℕ → String → String
strokes zero rest = "-" ∷ rest
strokes (suc n) rest = "1" ∷ strokes n rest

abbrev written : List ℕ → String
written [] = ""
written (n ∷ l) = strokes n (written l)

abbrev one_more : List ℕ → List ℕ
one_more [] = []
one_more (n ∷ l) = suc n ∷ l

abbrev groups : String → List ℕ
groups [] = []
groups (c ∷ s) = let rest = groups s in if eqb (code c) 45 then 0 ∷ rest else one_more rest

groups-strokes : (n : ℕ) (rest : String) → groups (strokes n rest) ≡ n ∷ groups rest
groups-strokes zero rest = refl
groups-strokes (suc n) rest = ap one_more (groups-strokes n rest)

groups-written : (l : List ℕ) → groups (written l) ≡ l
groups-written [] = refl
groups-written (n ∷ l) = groups-strokes n (written l) ∙ ap (λ k. n ∷ k) (groups-written l)

strokes-url_safe :
    (n : ℕ) (rest : String) → all_url_safe rest ≡ true → all_url_safe (strokes n rest) ≡ true
unfolding all_url_safe
strokes-url_safe zero rest h = h
strokes-url_safe (suc n) rest h = strokes-url_safe n rest h

written-url_safe : (l : List ℕ) → all_url_safe (written l) ≡ true
unfolding all_url_safe
written-url_safe [] = refl
written-url_safe (n ∷ l) = strokes-url_safe n (written l) (written-url_safe l)

abbrev b64 : List ℕ → String
b64 l = "b" ∷ written l

abbrev unb64 : String → Result (List ℕ)
unb64 [] = raise value_error
unb64 (c ∷ s) = ok (groups s)

b64-IsB64 : (l : List ℕ) → is_b64 (b64 l) ≡ true
unfolding all_url_safe
b64-IsB64 l = rw (count.cons "b" (written l)) (rw (written-url_safe l) (ground arith))

abbrev first : List ℕ → ℕ
first [] = 0
first (n ∷ l) = n

abbrev magnitude : Json → ℕ
magnitude (number n) = n
magnitude (negative n) = n
magnitude (str s) = first (groups s)
magnitude _ = 0

abbrev sign : Json → ℕ
sign (negative n) = 1
sign _ = 0

abbrev signed_number : ℕ → ℕ → Json
signed_number zero n = number n
signed_number (suc m) n = negative n

abbrev dumps : Document → List ℕ
dumps
      (object
        ((k, ca) ∷ (k', exp) ∷ ft ∷ (k'', iat) ∷ (l, id) ∷ ot ∷ (l', p) ∷ (l'', ps) ∷ v ∷ [])) =
    magnitude ca
    ∷ sign exp
    ∷ magnitude exp
    ∷ sign iat
    ∷ magnitude iat
    ∷ magnitude id
    ∷ magnitude p
    ∷ magnitude ps
    ∷ []
dumps _ = []

abbrev loads : List ℕ → Result Document
loads (ca ∷ s ∷ exp ∷ r ∷ iat ∷ id ∷ p ∷ ps ∷ []) = ok (
    object (
      ("ca", str (strokes ca ""))
      ∷ ("exp", signed_number s exp)
      ∷ ("ft", str "b")
      ∷ ("iat", signed_number r iat)
      ∷ ("id", number id)
      ∷ ("ot", str "b")
      ∷ ("p", number p)
      ∷ ("ps", number ps)
      ∷ ("v", number 1)
      ∷ []))
loads _ = raise value_error

abbrev pub lib : CursorLibrary
lib = record {
  Bytes = List ℕ;
  bytes_eq = record { beq = same_numbers; beq_iff = same_numbers_iff };
  digest = λ m. [];
  ascii = λ s. [];
  prefixed = λ s m. m;
  b64encode = b64;
  urlsafe_b64decode = unb64;
  dumps = dumps;
  loads = loads;
  timestamp = λ t. strokes t "";
  fromisoformat = λ s. ok (first (groups s));
  isoformat = λ d. "";
}

signed_again : (a b : ℕ) → signed_number (sign (signed a b)) (magnitude (signed a b)) ≡ signed a b
signed_again a b = ground arith

pub lib-IsCursorLibrary : (ttl : ℕ) → IsCursorLibrary lib ttl
lib-IsCursorLibrary ttl = record {
  digest_text = λ m. b64-IsB64 [];
  json_text = λ d. b64-IsB64 (dumps d);
  b64_read = λ x. rw (groups-written x) refl;
  json_read = λ owner query b t.
      rw
        (
          groups-strokes b.created_at "",
          signed_again (seconds_after t + ttl) (seconds_before t),
          signed_again (seconds_after t) (seconds_before t),
        )
        refl;
  time_read = λ t h. rw (groups-strokes t "") refl;
}

abbrev query : BookmarkQuery
query = record {
  tag = none;
  q = none;
  created_from = none;
  created_to = none;
  updated_from = none;
  updated_to = none;
  page = 1;
  page_size = 1;
}

abbrev boundary : CursorBoundary
boundary = record { created_at = 5; bookmark_id = 3; page = 2 }

abbrev issued : ℕ
issued = epoch + 10 * second

abbrev token : String
token = sealed_token lib 60 (b64 (dumps (object (payload lib 60 1 query boundary issued))))

issues : encode lib 60 1 query boundary (utc issued) ≡ ok token
unfolding encode normalize_utc
issues = refl

token-length : count token ≡ 102
token-length = refl

decode-encode_example : decode lib 60 token 1 query (utc (issued + 2 * second)) ≡ ok boundary
decode-encode_example =
    decode-encode lib 60 1 query boundary (utc issued) (utc (issued + 2 * second)) token
      (lib-IsCursorLibrary 60) (omega arith) issues (omega (arith, token-length))
      (
        issued,
        issued + 2 * second,
        normalize_utc-utc issued,
        normalize_utc-utc (issued + 2 * second),
        omega arith,
        omega arith,
        omega arith,
      )

decode-DecodeOutcome_example :
    DecodeOutcome lib 60 token 1 query
      (utc (issued + 2 * second))
      (decode lib 60 token 1 query (utc (issued + 2 * second)))
decode-DecodeOutcome_example = decode-DecodeOutcome lib 60 token 1 query (utc (issued + 2 * second))
