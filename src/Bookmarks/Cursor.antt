-- ===== src/Bookmarks/Cursor.antt =====
-- `BookmarkCursorCodec` of app/bookmarks/pagination.py. Bytes, HMAC-SHA256 under the codec's key,
-- base64, JSON and the text of a time are parameters. JSON numbers other than natural ones are kept
-- apart as far as the code tells them apart; that `json.loads` may nest values too deep is not.
pub mod Issued
pub mod Fields
pub mod Accepted
pub mod Examples
use backend_exercise.Prelude.{
  ℕ, ◌+◌, ◌-◌, ◌*◌, ◌/◌, ◌&&◌, ◌||◌, not, Bool, true, false, Option, none, some, List, [], ◌∷◌,
  Result, ok, raise, value_error, invalid_cursor_error, Eq, eqb, ltb, leb, require, if◌then◌else◌,
  string_eq, ◌==◌, ◌>>=◌, ◌>>◌,
}
use Prim.Native.String.{String, [], ◌∷◌, ◌++◌, count}
use Prim.Native.Char.{Char, code, nul}
use backend_exercise.Clock.{DateTime, normalize_utc, second, day}
use backend_exercise.Dict
use backend_exercise.Dict.{Dict}
use backend_exercise.Bookmarks.Models.{BookmarkQuery, CursorBoundary}

-- The values of JSON that a payload can hold. `negative n` is -n, `fraction p q` a float, `other` a
-- list, an object or another float.
pub data Json : Type 0 where
  number negative : ℕ → Json
  fraction : ℕ → ℕ → Json
  str : String → Json
  boolean : Bool → Json
  null other : Json

-- What a text of JSON holds; the pairs of an object are in the order of the text.
pub data Document : Type 0 where
  scalar : Json → Document
  object : List (String × Json) → Document

-- `digest` is HMAC-SHA256, `b64encode` the URL-safe base64 without its padding and
-- `urlsafe_b64decode` its reading with the padding restored, `dumps` is `_canonical_json`, `timestamp`
-- the text of `_timestamp` of an instant and `isoformat` that of a date.
pub record CursorLibrary : Type 1 where
  pub Bytes : Type 0
  pub bytes_eq : Eq Bytes
  pub digest : Bytes → Bytes
  pub ascii : String → Bytes
  pub prefixed : String → Bytes → Bytes
  pub b64encode : Bytes → String
  pub urlsafe_b64decode : String → Result Bytes
  pub dumps : Document → Bytes
  pub loads : Bytes → Result Document
  pub timestamp : ℕ → String
  pub fromisoformat : String → Result ℕ
  pub isoformat : ℕ → String

-- A character of `[A-Za-z0-9_-]`
abbrev pub is_url_safe : ℕ → Bool
is_url_safe c =
    (leb 48 c && leb c 57)
    || (leb 65 c && leb c 90)
    || (leb 97 c && leb c 122)
    || eqb c 95
    || eqb c 45

unfoldable pub all_url_safe : String → Bool
all_url_safe [] = true
all_url_safe (c ∷ s) = is_url_safe (code c) && all_url_safe s

-- `_B64_PATTERN`
abbrev pub is_b64 : String → Bool
is_b64 s = not (eqb (count s) 0) && all_url_safe s

abbrev pub dot : Char
dot = "."

abbrev pub prepend : Char → Option (String × String) → Option (String × String)
prepend c none = none
prepend c (some (s, t)) = some (c ∷ s, t)

-- The parts before and after the first dot.
unfoldable pub split_dot : String → Option (String × String)
split_dot [] = none
split_dot (c ∷ s) =
    let rest = split_dot s in if eqb (code c) (code dot) then some ([], s) else prepend c rest

-- `_TOKEN_PATTERN` and `value.split(".")`: the pattern lets one dot through.
abbrev pub token_parts : Option (String × String) → Result (String × String)
token_parts none = raise value_error
token_parts (some (encoded, signature)) = do
  require (is_b64 encoded && is_b64 signature) value_error
  ok (encoded, signature)

-- `_positive_int`
abbrev pub positive_int : Json → Result ℕ
positive_int (number n) = do require (leb 1 n) value_error; ok n
positive_int _ = raise value_error

-- a - b
abbrev pub signed : ℕ → ℕ → Json
signed a b = if ltb a b then negative (b - a) else number (a - b)

-- 1970-01-01, from which `timestamp()` counts; `int` drops the fraction of a second.
abbrev pub epoch : ℕ
epoch = 719_162 * day

abbrev pub seconds_after : ℕ → ℕ
seconds_after t = (t - epoch) / second

abbrev pub seconds_before : ℕ → ℕ
seconds_before t = (epoch - t) / second

abbrev pub date_value : (ℕ → String) → Option ℕ → Json
date_value isoformat none = null
date_value isoformat (some d) = str (isoformat d)

abbrev pub text_value : Option String → Json
text_value none = null
text_value (some s) = str s

abbrev pub is_key : String → List (String × Json) → Bool
is_key k [] = false
is_key k ((j, v) ∷ pairs) = j == k || is_key k pairs

-- `_reject_duplicates`
abbrev pub has_duplicates : List (String × Json) → Bool
has_duplicates [] = false
has_duplicates ((k, v) ∷ pairs) = is_key k pairs || has_duplicates pairs

abbrev pub payload_keys : List String
payload_keys = "v" ∷ "ot" ∷ "ft" ∷ "ca" ∷ "id" ∷ "p" ∷ "ps" ∷ "iat" ∷ "exp" ∷ []

abbrev pub all_keys : List String → List (String × Json) → Bool
all_keys [] pairs = true
all_keys (k ∷ keys) pairs = is_key k pairs && all_keys keys pairs

abbrev pub is_name : String → List String → Bool
is_name k [] = false
is_name k (j ∷ keys) = j == k || is_name k keys

abbrev pub all_member : List (String × Json) → List String → Bool
all_member [] keys = true
all_member ((k, v) ∷ pairs) keys = is_name k keys && all_member pairs keys

-- The dictionary of an object that has the keys of a payload, each once.
abbrev pub payload_of : Document → Result (List (String × Json))
payload_of (scalar value) = raise value_error
payload_of (object pairs) = do
  require (not (has_duplicates pairs)) value_error
  require (all_keys payload_keys pairs && all_member pairs payload_keys) value_error
  ok pairs

abbrev pub text_of : Json → Result String
text_of (str s) = ok s
text_of _ = raise value_error

-- `payload[key]`; every key is there.
abbrev pub value_at : String → List (String × Json) → Json
value_at k [] = null
value_at k ((j, v) ∷ pairs) = if j == k then v else value_at k pairs

abbrev pub text_at : String → List (String × Json) → Result String
text_at k pairs = text_of (value_at k pairs)

-- `payload["v"] != 1`: Python's `True` and `1.0` equal 1
abbrev pub is_version : Json → Bool
is_version (number n) = eqb n 1
is_version (fraction p q) = eqb p q
is_version (boolean b) = b
is_version _ = false

abbrev pub owner_domain : String
owner_domain = "owner" ++ (nul ∷ [])

abbrev pub filter_domain : String
filter_domain = "filter" ++ (nul ∷ [])

-- The fields of a payload, as `decode` reads them.
pub record CursorFields : Type 0 where
  pub created_at : String
  pub owner : String
  pub filters : String
  pub bookmark_id : ℕ
  pub page : ℕ
  pub page_size : ℕ
  pub issued_at : ℕ
  pub expires_at : ℕ

unfoldable pub read_fields : List (String × Json) → Result CursorFields
read_fields fields = do
  require (is_version (value_at "v" fields)) value_error
  created_at ← text_at "ca" fields
  owner ← text_at "ot" fields
  filters ← text_at "ft" fields
  bookmark_id ← positive_int (value_at "id" fields)
  page ← positive_int (value_at "p" fields)
  page_size ← positive_int (value_at "ps" fields)
  issued_at ← positive_int (value_at "iat" fields)
  expires_at ← positive_int (value_at "exp" fields)
  ok (record {
    created_at = created_at;
    owner = owner;
    filters = filters;
    bookmark_id = bookmark_id;
    page = page;
    page_size = page_size;
    issued_at = issued_at;
    expires_at = expires_at;
  })

-- Neither before it was issued nor expired.
unfoldable pub living : (now : DateTime) → CursorFields → Result (Unit {0})
living now f = do
  t ← normalize_utc now
  require (leb (f.issued_at + seconds_before t) (seconds_after t)) value_error
  require (ltb (seconds_after t) (f.expires_at + seconds_before t)) value_error

-- The codec under its key and time to live.
module _ (lib : CursorLibrary) (ttl : ℕ) where
  -- `_tag`
  abbrev pub tag : String → Document → String
  tag domain value = lib.b64encode (lib.digest (lib.prefixed domain (lib.dumps value)))

  abbrev pub owner_tag : ℕ → String
  owner_tag owner_id = tag owner_domain (scalar (number owner_id))

  -- `_filter_values`
  abbrev pub filter_values : BookmarkQuery → List (String × Json)
  filter_values query =
      ("created_from", date_value lib.isoformat query.created_from)
      ∷ ("created_to", date_value lib.isoformat query.created_to)
      ∷ ("q", text_value query.q)
      ∷ ("tag", text_value query.tag)
      ∷ ("updated_from", date_value lib.isoformat query.updated_from)
      ∷ ("updated_to", date_value lib.isoformat query.updated_to)
      ∷ []

  abbrev pub filter_tag : BookmarkQuery → String
  filter_tag query = tag filter_domain (object (filter_values query))

  -- The payload of a cursor that is issued at an instant.
  abbrev pub payload :
      (owner_id : ℕ) → BookmarkQuery → CursorBoundary → (issued : ℕ) → List (String × Json)
  payload owner_id query boundary issued =
      ("ca", str (lib.timestamp boundary.created_at))
      ∷ ("exp", signed (seconds_after issued + ttl) (seconds_before issued))
      ∷ ("ft", str (filter_tag query))
      ∷ ("iat", signed (seconds_after issued) (seconds_before issued))
      ∷ ("id", number boundary.bookmark_id)
      ∷ ("ot", str (owner_tag owner_id))
      ∷ ("p", number boundary.page)
      ∷ ("ps", number query.page_size)
      ∷ ("v", number 1)
      ∷ []

  abbrev pub signature_of : String → String
  signature_of encoded = lib.b64encode (lib.digest (lib.ascii encoded))

  abbrev pub sealed_token : String → String
  sealed_token encoded = encoded ++ (dot ∷ signature_of encoded)

  unfoldable pub encode :
      (owner_id : ℕ) → BookmarkQuery → CursorBoundary → (now : DateTime) → Result String
  encode owner_id query boundary now = do
    issued ← normalize_utc now
    require (leb 1 boundary.bookmark_id) value_error
    require (leb 1 owner_id) value_error
    require (leb 1 boundary.page) value_error
    require (leb 1 query.page_size) value_error
    ok (sealed_token (lib.b64encode (lib.dumps (object (payload owner_id query boundary issued)))))

  -- `_b64decode`
  abbrev pub b64decode : String → Result lib.Bytes
  b64decode s = do
    require (is_b64 s) value_error
    bytes ← lib.urlsafe_b64decode s
    require (lib.b64encode bytes == s) value_error
    ok bytes

  -- `_parse_timestamp`
  abbrev pub parse_timestamp : String → Result ℕ
  parse_timestamp s = do t ← lib.fromisoformat s; require (lib.timestamp t == s) value_error; ok t

  -- The payload belongs to this owner, query and time to live.
  unfoldable pub bound : (owner_id : ℕ) → BookmarkQuery → CursorFields → Result (Unit {0})
  bound owner_id query f = do
    require (leb 1 owner_id) value_error
    require (f.owner == owner_tag owner_id) value_error
    require (f.filters == filter_tag query) value_error
    require (eqb f.page_size query.page_size) value_error
    require (eqb f.expires_at (f.issued_at + ttl)) value_error

  unfoldable pub checked :
      (owner_id : ℕ)
      → BookmarkQuery
      → (now : DateTime) → List (String × Json)
      → Result CursorBoundary
  unfolding read_fields bound living
  checked owner_id query now fields = do
    f ← read_fields fields
    bound owner_id query f
    living now f
    created_at ← parse_timestamp f.created_at
    ok (record { created_at = created_at; bookmark_id = f.bookmark_id; page = f.page })

  -- The body of `decode`'s `try`, on the two parts of a token.
  unfoldable pub opened :
      (owner_id : ℕ) → BookmarkQuery → (now : DateTime) → String × String → Result CursorBoundary
  unfolding checked
  opened owner_id query now (encoded, signature) = do
    given ← b64decode signature
    require (lib.bytes_eq.beq given (lib.digest (lib.ascii encoded))) value_error
    bytes ← b64decode encoded
    document ← lib.loads bytes
    fields ← payload_of document
    require (lib.bytes_eq.beq (lib.dumps (object fields)) bytes) value_error
    checked owner_id query now fields

  -- Every error is one error to the client.
  abbrev pub or_invalid : Result CursorBoundary → Result CursorBoundary
  or_invalid (raise error) = raise invalid_cursor_error
  or_invalid (ok boundary) = ok boundary

  unfoldable pub decode :
      (value : String) → (owner_id : ℕ) → BookmarkQuery → (now : DateTime) → Result CursorBoundary
  unfolding opened split_dot all_url_safe
  decode value owner_id query now = or_invalid (
      require (leb (count value) 2048) value_error
      >> (token_parts (split_dot value) >>= opened owner_id query now))
