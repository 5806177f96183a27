-- ===== src/Bookmarks/Cursor/Fields.antt =====
-- What `decode` reads of a payload that it accepts.
use backend_exercise.Prelude.{
  ℕ, ◌+◌, ◌≤◌, ◌<◌, ◌≡◌, ◌∙◌, refl, sym, ap, subst, Bool, true, false, List, Result, ok, raise,
  value_error, arith, eqb, leb, ltb, require, string_eq, ◌==◌, ◌>>=◌, ◌>>◌, >>=-eq-ok, >>-eq-ok,
  ok-inj, eqb_iff,
}
use Prim.Native.String.{String}
use backend_exercise.Clock.{DateTime, normalize_utc}
use backend_exercise.Bookmarks.Models.{BookmarkQuery, CursorBoundary}
use backend_exercise.Bookmarks.Cursor.{
  CursorLibrary, CursorFields, read_fields, bound, living, Json, number, negative, fraction, str,
  boolean, null, other, positive_int, text_of, value_at, seconds_after, seconds_before, owner_tag,
  filter_tag, is_version, parse_timestamp, checked,
}

text_of-eq-ok : (j : Json) (s : String) → text_of j ≡ ok s → j ≡ str s
text_of-eq-ok (str t) s h = ap str (ok-inj t s h)
text_of-eq-ok (number n) s h = cc
text_of-eq-ok (negative n) s h = cc
text_of-eq-ok (fraction p q) s h = cc
text_of-eq-ok (boolean b) s h = cc
text_of-eq-ok null s h = cc
text_of-eq-ok other s h = cc

positive_int-eq-ok : (j : Json) (n : ℕ) → positive_int j ≡ ok n → j ≡ number n
positive_int-eq-ok (number m) n h =
    ap number (ok-inj m n (>>-eq-ok (require (leb 1 m) value_error) (ok m) h))
positive_int-eq-ok (str t) n h = cc
positive_int-eq-ok (negative m) n h = cc
positive_int-eq-ok (fraction p q) n h = cc
positive_int-eq-ok (boolean b) n h = cc
positive_int-eq-ok null n h = cc
positive_int-eq-ok other n h = cc

pub require-eq-ok : (b : Bool) (u : Unit {0}) → require b value_error ≡ ok u → b ≡ true
require-eq-ok true u h = refl
require-eq-ok false u h = cc

read-eq-ok :
    (ca ot ft : Result String) (id p ps iat exp : Result ℕ) (f : CursorFields)
    → (ca >>= λ created_at. ot >>= λ owner. ft >>= λ filters. id >>= λ bookmark_id. p >>= λ page.
        ps >>= λ page_size. iat >>= λ issued_at. exp >>= λ expires_at. ok (record {
          created_at = created_at;
          owner = owner;
          filters = filters;
          bookmark_id = bookmark_id;
          page = page;
          page_size = page_size;
          issued_at = issued_at;
          expires_at = expires_at;
        }))
      ≡ ok f
    → (ca ≡ ok f.created_at)
      × (ot ≡ ok f.owner)
      × (ft ≡ ok f.filters)
      × (id ≡ ok f.bookmark_id)
      × (p ≡ ok f.page)
      × (ps ≡ ok f.page_size)
      × (iat ≡ ok f.issued_at)
      × (exp ≡ ok f.expires_at)
read-eq-ok (ok a) (ok o) (ok t) (ok i) (ok n) (ok z) (ok y) (ok x) f h =
    let same = ok-inj _ f h in
    (
      ap ok (ap (λ (g : CursorFields). g.created_at) same),
      ap ok (ap (λ (g : CursorFields). g.owner) same),
      ap ok (ap (λ (g : CursorFields). g.filters) same),
      ap ok (ap (λ (g : CursorFields). g.bookmark_id) same),
      ap ok (ap (λ (g : CursorFields). g.page) same),
      ap ok (ap (λ (g : CursorFields). g.page_size) same),
      ap ok (ap (λ (g : CursorFields). g.issued_at) same),
      ap ok (ap (λ (g : CursorFields). g.expires_at) same),
    )
read-eq-ok (raise error) ot ft id p ps iat exp f h = cc
read-eq-ok (ok a) (raise error) ft id p ps iat exp f h = cc
read-eq-ok (ok a) (ok o) (raise error) id p ps iat exp f h = cc
read-eq-ok (ok a) (ok o) (ok t) (raise error) p ps iat exp f h = cc
read-eq-ok (ok a) (ok o) (ok t) (ok i) (raise error) ps iat exp f h = cc
read-eq-ok (ok a) (ok o) (ok t) (ok i) (ok n) (raise error) iat exp f h = cc
read-eq-ok (ok a) (ok o) (ok t) (ok i) (ok n) (ok z) (raise error) exp f h = cc
read-eq-ok (ok a) (ok o) (ok t) (ok i) (ok n) (ok z) (ok y) (raise error) f h = cc

-- What the fields are in the payload.
record AreFields (fields : List (String × Json)) (f : CursorFields) : Type 0 where
  pub ca : value_at "ca" fields ≡ str f.created_at
  pub ot : value_at "ot" fields ≡ str f.owner
  pub ft : value_at "ft" fields ≡ str f.filters
  pub id : value_at "id" fields ≡ number f.bookmark_id
  pub p : value_at "p" fields ≡ number f.page
  pub ps : value_at "ps" fields ≡ number f.page_size
  pub iat : value_at "iat" fields ≡ number f.issued_at
  pub exp : value_at "exp" fields ≡ number f.expires_at

read_fields-AreFields :
    (fields : List (String × Json)) (f : CursorFields)
    → read_fields fields ≡ ok f
    → AreFields fields f
unfolding read_fields
read_fields-AreFields fields f h =
    let (ca, ot, ft, id, p, ps, iat, exp) =
      read-eq-ok (text_of (value_at "ca" fields)) (text_of (value_at "ot" fields))
        (text_of (value_at "ft" fields)) (positive_int (value_at "id" fields))
        (positive_int (value_at "p" fields)) (positive_int (value_at "ps" fields))
        (positive_int (value_at "iat" fields)) (positive_int (value_at "exp" fields)) f
        (>>-eq-ok (require (is_version (value_at "v" fields)) value_error) _ h) in
    record {
      ca = text_of-eq-ok _ f.created_at ca;
      ot = text_of-eq-ok _ f.owner ot;
      ft = text_of-eq-ok _ f.filters ft;
      id = positive_int-eq-ok _ f.bookmark_id id;
      p = positive_int-eq-ok _ f.page p;
      ps = positive_int-eq-ok _ f.page_size ps;
      iat = positive_int-eq-ok _ f.issued_at iat;
      exp = positive_int-eq-ok _ f.expires_at exp;
    }

required :
    (a b c d e : Bool) (u : Unit {0})
    → (require a value_error
        >> (require b value_error
            >> (require c value_error >> (require d value_error >> require e value_error))))
      ≡ ok u
    → (b ≡ true) × (c ≡ true) × (d ≡ true) × (e ≡ true)
required true true true true true u h = (refl, refl, refl, refl)
required true true true true false u h = cc
required true true true false e u h = cc
required true true false d e u h = cc
required true false c d e u h = cc
required false b c d e u h = cc

-- The fields of an accepted payload.
pub record HasFields (lib : CursorLibrary) (ttl owner_id : ℕ) (query : BookmarkQuery)
    (now : DateTime) (fields : List (String × Json)) (b : CursorBoundary) : Type 0 where
  pub created : value_at "ca" fields ≡ str (lib.timestamp b.created_at)
  pub id_of : value_at "id" fields ≡ number b.bookmark_id
  pub page_of : value_at "p" fields ≡ number b.page
  pub owner_bound : value_at "ot" fields ≡ str (owner_tag lib ttl owner_id)
  pub filter_bound : value_at "ft" fields ≡ str (filter_tag lib ttl query)
  pub size_bound : value_at "ps" fields ≡ number query.page_size
  pub issued_at : ℕ
  pub issued_of : value_at "iat" fields ≡ number issued_at
  pub expires_of : value_at "exp" fields ≡ number (issued_at + ttl)
  pub t : ℕ
  pub now_of : normalize_utc now ≡ ok t
  pub begun : issued_at + seconds_before t ≤ seconds_after t
  pub unexpired : seconds_after t < issued_at + ttl + seconds_before t

module _ (lib : CursorLibrary) (ttl owner_id : ℕ) (query : BookmarkQuery) (now : DateTime) where
  bound-eq-ok :
      (f : CursorFields)
      → bound lib ttl owner_id query f ≡ ok tt
      → (f.owner ≡ owner_tag lib ttl owner_id)
        × (f.filters ≡ filter_tag lib ttl query)
        × (f.page_size ≡ query.page_size)
        × (f.expires_at ≡ f.issued_at + ttl)
  unfolding bound
  bound-eq-ok f h =
      let (o, t, z, e) =
        required (leb 1 owner_id) (f.owner == owner_tag lib ttl owner_id)
          (f.filters == filter_tag lib ttl query) (eqb f.page_size query.page_size)
          (eqb f.expires_at (f.issued_at + ttl)) tt h in
      (
        (string_eq.beq_iff f.owner (owner_tag lib ttl owner_id)).0 o,
        (string_eq.beq_iff f.filters (filter_tag lib ttl query)).0 t,
        (eqb_iff f.page_size query.page_size).0 z,
        (eqb_iff f.expires_at (f.issued_at + ttl)).0 e,
      )

  living-eq-ok :
      (f : CursorFields)
      → living now f ≡ ok tt
      → (t : ℕ) × (normalize_utc now ≡ ok t)
        × (f.issued_at + seconds_before t ≤ seconds_after t)
        × (seconds_after t < f.expires_at + seconds_before t)
  unfolding living
  living-eq-ok f h =
      let (t, now_of, h1) =
        >>=-eq-ok (normalize_utc now)
          (λ t.
            require (leb (f.issued_at + seconds_before t) (seconds_after t)) value_error
            >> require (ltb (seconds_after t) (f.expires_at + seconds_before t)) value_error)
          h in
      (t, now_of, ground arith, ground arith)

  parse_timestamp-eq-ok :
      (s : String) (t : ℕ) → parse_timestamp lib ttl s ≡ ok t → lib.timestamp t ≡ s
  parse_timestamp-eq-ok s t h =
      let (t', _, h1) =
        >>=-eq-ok (lib.fromisoformat s) (λ t'. require (lib.timestamp t' == s) value_error >> ok t')
          h in
      let (u, same, h2) = >>=-eq-ok (require (lib.timestamp t' == s) value_error) (λ u. ok t') h1 in
      ap lib.timestamp (sym (ok-inj t' t h2))
      ∙ (string_eq.beq_iff (lib.timestamp t') s).0 (require-eq-ok (lib.timestamp t' == s) u same)

  fields_when :
      (fields : List (String × Json)) (f : CursorFields) (created_at : ℕ)
      → AreFields fields f
      → bound lib ttl owner_id query f ≡ ok tt
      → living now f ≡ ok tt
      → parse_timestamp lib ttl f.created_at ≡ ok created_at
      → HasFields lib ttl owner_id query now fields
          (record { created_at = created_at; bookmark_id = f.bookmark_id; page = f.page })
  fields_when fields f created_at are is_bound lives parsed =
      let (o, q, z, e) = bound-eq-ok f is_bound in
      let (t, now_of, begun, unexpired) = living-eq-ok f lives in
      record {
        created = are.ca ∙ ap str (sym (parse_timestamp-eq-ok f.created_at created_at parsed));
        id_of = are.id;
        page_of = are.p;
        owner_bound = are.ot ∙ ap str o;
        filter_bound = are.ft ∙ ap str q;
        size_bound = are.ps ∙ ap number z;
        issued_at = f.issued_at;
        issued_of = are.iat;
        expires_of = are.exp ∙ ap number e;
        t = t;
        now_of = now_of;
        begun = begun;
        unexpired = subst (λ x. seconds_after t < x + seconds_before t) e unexpired;
      }

  pub checked-HasFields :
      (fields : List (String × Json)) (b : CursorBoundary)
      → checked lib ttl owner_id query now fields ≡ ok b
      → HasFields lib ttl owner_id query now fields b
  unfolding checked
  checked-HasFields fields b h =
      let finish = λ (f : CursorFields) (created_at : ℕ).
        ok (record { created_at = created_at; bookmark_id = f.bookmark_id; page = f.page }) in
      let (f, read, h1) =
        >>=-eq-ok (read_fields fields)
          (λ f.
            bound lib ttl owner_id query f
            >> (living now f >> (parse_timestamp lib ttl f.created_at >>= finish f)))
          h in
      let (_, is_bound, h2) =
        >>=-eq-ok (bound lib ttl owner_id query f)
          (λ u. living now f >> (parse_timestamp lib ttl f.created_at >>= finish f)) h1 in
      let (_, lives, h3) =
        >>=-eq-ok (living now f) (λ u. parse_timestamp lib ttl f.created_at >>= finish f) h2 in
      let (created_at, parsed, h4) =
        >>=-eq-ok (parse_timestamp lib ttl f.created_at) (finish f) h3 in
      subst (HasFields lib ttl owner_id query now fields) (ok-inj _ b h4) (
        fields_when fields f created_at (read_fields-AreFields fields f read) is_bound lives parsed)
