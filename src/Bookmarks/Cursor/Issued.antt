-- ===== src/Bookmarks/Cursor/Issued.antt =====
-- A cursor that is issued is read back while it lives.
use backend_exercise.Prelude.{
  ℕ, ◌+◌, ◌≤◌, ◌<◌, ◌≡◌, ◌∙◌, refl, sym, subst, not, ◌&&◌, Bool, true, false, some, Result, ok,
  value_error, arith, eqb, leb, ltb, require, string_eq, ◌==◌, ◌>>◌, ok-inj, eqb_iff,
}
use Prim.Native.String.{String, [], ◌∷◌, ◌++◌, count}
use Prim.Native.Char.{code}
use text.Mathlib.TextLemmas.{nil-append, cons-append}
use backend_exercise.Clock.{DateTime, normalize_utc, end_of_time}
use backend_exercise.Bookmarks.Models.{BookmarkQuery, CursorBoundary}
use backend_exercise.Bookmarks.Cursor.{
  CursorLibrary, read_fields, bound, living, Document, object, is_url_safe, all_url_safe, is_b64,
  dot, split_dot, seconds_after, seconds_before, payload, positive_int, signed, owner_tag,
  filter_tag, signature_of, sealed_token, encode, b64decode, checked, opened, decode,
}

-- What the codec relies on: base64 is read back and has its own characters, as has the digest's; JSON
-- reads back the payloads that are issued; the text of a time in the calendar is read back.
pub record IsCursorLibrary (lib : CursorLibrary) (ttl : ℕ) : Type 0 where
  pub digest_text : (m : lib.Bytes) → is_b64 (lib.b64encode (lib.digest m)) ≡ true
  pub json_text : (d : Document) → is_b64 (lib.b64encode (lib.dumps d)) ≡ true
  pub b64_read : (x : lib.Bytes) → lib.urlsafe_b64decode (lib.b64encode x) ≡ ok x
  pub json_read :
      (owner : ℕ) (query : BookmarkQuery) (b : CursorBoundary) (issued : ℕ)
      → lib.loads (lib.dumps (object (payload lib ttl owner query b issued)))
        ≡ ok (object (payload lib ttl owner query b issued))
  pub time_read : (t : ℕ) → t < end_of_time → lib.fromisoformat (lib.timestamp t) ≡ ok t

both : (a b : Bool) → (a && b) ≡ true → (a ≡ true) × (b ≡ true)
both a b h = (ground arith, ground arith)

other : (c : ℕ) → is_url_safe c ≡ true → eqb c (code dot) ≡ false
other c h = ground arith

split_dot-append : (s t : String) → all_url_safe s ≡ true → split_dot (s ++ (dot ∷ t)) ≡ some (s, t)
unfolding split_dot all_url_safe
split_dot-append [] t h = rw (nil-append (dot ∷ t)) refl
split_dot-append (c ∷ s) t h =
    let (here, rest) = both (is_url_safe (code c)) (all_url_safe s) h in
    rw (cons-append c s (dot ∷ t)) (rw (split_dot-append s t rest) (rw (other (code c) here) refl))

pub leb-true : (a b : ℕ) → a ≤ b → leb a b ≡ true
leb-true a b h = ground arith

ltb-true : (a b : ℕ) → a < b → ltb a b ≡ true
ltb-true a b h = ground arith

positive_int-signed : (n : ℕ) → 1 ≤ n → positive_int (signed n 0) ≡ ok n
positive_int-signed n h = ground arith

string_refl : (s : String) → (s == s) ≡ true
string_refl s = (string_eq.beq_iff s s).1 refl

module _ (lib : CursorLibrary) (ttl : ℕ) (law : IsCursorLibrary lib ttl) where
  b64decode-b64encode :
      (x : lib.Bytes) → is_b64 (lib.b64encode x) ≡ true → b64decode lib ttl (lib.b64encode x) ≡ ok x
  b64decode-b64encode x h = rw (h, law.b64_read x) (rw (string_refl (lib.b64encode x)) refl)

  -- The checks of a payload that was issued.
  checked-payload :
      (owner : ℕ) (query : BookmarkQuery) (b : CursorBoundary) (now : DateTime) (issued t : ℕ)
      → normalize_utc now ≡ ok t
      → 1 ≤ b.bookmark_id
      → 1 ≤ owner
      → 1 ≤ b.page
      → 1 ≤ query.page_size
      → b.created_at < end_of_time
      → 1 ≤ seconds_after issued
      → seconds_after issued ≤ seconds_after t
      → seconds_after t < seconds_after issued + ttl
      → checked lib ttl owner query now (payload lib ttl owner query b issued) ≡ ok b
  unfolding checked read_fields bound living
  checked-payload owner query b now issued t now_of i o p s in_calendar a l e =
      let none_before : seconds_before issued ≡ 0 = omega arith in
      let none_before' : seconds_before t ≡ 0 = omega arith in
      rw
        (
          leb-true 1 b.bookmark_id i,
          leb-true 1 b.page p,
          leb-true 1 query.page_size s,
          none_before,
          positive_int-signed (seconds_after issued) a,
          positive_int-signed (seconds_after issued + ttl) (omega arith),
          leb-true 1 owner o,
          string_refl (owner_tag lib ttl owner),
          string_refl (filter_tag lib ttl query),
          (eqb_iff query.page_size query.page_size).1 refl,
          (eqb_iff (seconds_after issued + ttl) (seconds_after issued + ttl)).1 refl,
          now_of,
        )
        (rw
          (
            leb-true (seconds_after issued + seconds_before t) (seconds_after t) (omega arith),
            ltb-true (seconds_after t) (seconds_after issued + ttl + seconds_before t)
                (omega arith),
          )
          (rw (law.time_read b.created_at in_calendar)
            (rw (string_refl (lib.timestamp b.created_at)) refl)))

  opened-payload :
      (owner : ℕ) (query : BookmarkQuery) (b : CursorBoundary) (now : DateTime) (issued : ℕ)
      → let encoded : String =
          lib.b64encode (lib.dumps (object (payload lib ttl owner query b issued))) in
        opened lib ttl owner query now (encoded, signature_of lib ttl encoded)
        ≡ checked lib ttl owner query now (payload lib ttl owner query b issued)
  unfolding opened
  opened-payload owner query b now issued =
      let d : Document = object (payload lib ttl owner query b issued) in
      let encoded : String = lib.b64encode (lib.dumps d) in
      let m : lib.Bytes = lib.digest (lib.ascii encoded) in
      rw
        (
          b64decode-b64encode m (law.digest_text (lib.ascii encoded)),
          (lib.bytes_eq.beq_iff m m).1 refl,
          b64decode-b64encode (lib.dumps d) (law.json_text d),
          law.json_read owner query b issued,
          (lib.bytes_eq.beq_iff (lib.dumps d) (lib.dumps d)).1 refl,
        )
        refl

  decode-opened :
      (encoded : String) (owner : ℕ) (query : BookmarkQuery) (now : DateTime) (b : CursorBoundary)
      → is_b64 encoded ≡ true
      → count (sealed_token lib ttl encoded) ≤ 2048
      → opened lib ttl owner query now (encoded, signature_of lib ttl encoded) ≡ ok b
      → decode lib ttl (sealed_token lib ttl encoded) owner query now ≡ ok b
  unfolding decode
  decode-opened encoded owner query now b h fits e =
      rw
        (
          leb-true (count (sealed_token lib ttl encoded)) 2048 fits,
          split_dot-append encoded (signature_of lib ttl encoded)
              (both (not (eqb (count encoded) 0)) (all_url_safe encoded) h).1,
          h,
          law.digest_text (lib.ascii encoded),
          e,
        )
        refl

guarded :
    (a b c d : Bool) (r : Result String) (token : String)
    → (require a value_error
        >> (require b value_error >> (require c value_error >> (require d value_error >> r))))
      ≡ ok token
    → (a ≡ true) × (b ≡ true) × (c ≡ true) × (d ≡ true) × (r ≡ ok token)
guarded true true true true r token h = (refl, refl, refl, refl, h)
guarded true true true false r token h = cc
guarded true true false d r token h = cc
guarded true false c d r token h = cc
guarded false b c d r token h = cc

-- A cursor lives from the second in which it is issued until its time to live has passed.
abbrev pub Lives : (ttl : ℕ) → (issued now : DateTime) → Type 0
Lives ttl issued now =
    (s : ℕ) × (t : ℕ) × (normalize_utc issued ≡ ok s)
    × (normalize_utc now ≡ ok t)
    × (1 ≤ seconds_after s)
    × (seconds_after s ≤ seconds_after t)
    × (seconds_after t < seconds_after s + ttl)

-- A cursor that was issued after the first second of 1970, for a boundary in the calendar, and that
-- is no longer than 2048 characters, is decoded by the same owner for the same query, while it lives,
-- as the boundary that it was issued for.
pub decode-encode :
    (lib : CursorLibrary) (ttl owner : ℕ) (query : BookmarkQuery) (b : CursorBoundary)
    (issued now : DateTime) (token : String)
    → IsCursorLibrary lib ttl
    → b.created_at < end_of_time
    → encode lib ttl owner query b issued ≡ ok token
    → count token ≤ 2048
    → Lives ttl issued now
    → decode lib ttl token owner query now ≡ ok b
unfolding encode
decode-encode lib ttl owner query b issued now token law in_calendar h fits (s, t, f, g, a, l, e) =
    let encoded : String = lib.b64encode (lib.dumps (object (payload lib ttl owner query b s))) in
    let (i, o, p, z, same) =
      guarded (leb 1 b.bookmark_id) (leb 1 owner) (leb 1 b.page) (leb 1 query.page_size)
        (ok (sealed_token lib ttl encoded)) token (rw f at h) in
    let token_of : sealed_token lib ttl encoded ≡ token = ok-inj _ _ same in
    subst (λ x. decode lib ttl x owner query now ≡ ok b) token_of
      (decode-opened lib ttl law encoded owner query now b (law.json_text _)
        (subst (λ x. count x ≤ 2048) (sym token_of) fits)
        (opened-payload lib ttl law owner query b now s
          ∙ checked-payload lib ttl law owner query b now s t g (ground arith) (ground arith)
              (ground arith) (ground arith) in_calendar a l e))
