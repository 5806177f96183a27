-- ===== src/Bookmarks/Listing/Complete.antt =====
-- `list_cursor` with the codec of app/bookmarks/pagination.py: its cursors lead through the whole list.
use backend_exercise.Prelude.{ℕ, ◌≤◌, ◌<◌, ◌≡◌, refl, none, List, map, All, length, String, ok}
use Prim.Native.String.{count}
use backend_exercise.Clock.{DateTime, normalize_utc}
use backend_exercise.Bookmarks.Models.{Database, BookmarkQuery, CursorBoundary, TextLibrary}
use backend_exercise.Bookmarks.Repository.{snapshot_of}
use backend_exercise.Bookmarks.Repository.Pages.{IsKey}
use backend_exercise.Bookmarks.Cursor.{
  CursorLibrary, seconds_after, sealed_token, payload, object, encode, decode,
}
use backend_exercise.Bookmarks.Cursor.Issued.{IsCursorLibrary, Lives, leb-true, decode-encode}
use backend_exercise.Bookmarks.Listing.{CursorCodec, public_bookmark}
use backend_exercise.Bookmarks.Listing.Codec.{IsBoundary, IsCodec}
use backend_exercise.Bookmarks.Listing.Walk.{
  IsStored, matching, walk, InTime, AllFit, walk-matching,
}

-- `BookmarkCursorCodec`, as the service uses it.
abbrev pub cursor_codec : CursorLibrary → (ttl : ℕ) → CursorCodec
cursor_codec lib ttl = record { encode = encode lib ttl; decode = decode lib ttl }

-- A reading of the clock after the first second of 1970.
abbrev pub CanIssue : DateTime → Type 0
CanIssue now = (s : ℕ) × (normalize_utc now ≡ ok s) × (1 ≤ seconds_after s)

-- The token that is issued has at most 2048 characters.
abbrev pub Short :
    CursorLibrary → (ttl : ℕ) → ℕ → BookmarkQuery → CursorBoundary → DateTime → Type 0
Short lib ttl owner query b issued =
    (token : String) → encode lib ttl owner query b issued ≡ ok token → count token ≤ 2048

encode-ok :
    (lib : CursorLibrary) (ttl owner : ℕ) (query : BookmarkQuery) (b : CursorBoundary)
    (issued : DateTime) (s : ℕ)
    → normalize_utc issued ≡ ok s
    → 1 ≤ owner
    → 1 ≤ query.page_size
    → IsBoundary b
    → encode lib ttl owner query b issued
      ≡ ok (
          sealed_token lib ttl
            (lib.b64encode (lib.dumps (object (payload lib ttl owner query b s)))))
unfolding encode
encode-ok lib ttl owner query b issued s n o z k =
    rw
      (
        leb-true 1 b.bookmark_id k.id_positive,
        leb-true 1 owner o,
        leb-true 1 b.page k.page_positive,
        leb-true 1 query.page_size z,
        n,
      )
      refl

pub cursor_codec-IsCodec :
    (lib : CursorLibrary) (ttl : ℕ)
    → IsCursorLibrary lib ttl
    → IsCodec (cursor_codec lib ttl) CanIssue (Lives ttl) (Short lib ttl)
cursor_codec-IsCodec lib ttl law = record {
  issue = λ owner query b issued o z k (s, n, after) short.
      let made = encode-ok lib ttl owner query b issued s n o z k in
      (
        sealed_token lib ttl (lib.b64encode (lib.dumps (object (payload lib ttl owner query b s)))),
        made,
        λ now alive.
            decode-encode lib ttl owner query b issued now _ law k.in_calendar made (short _ made)
              alive,
      );
}

-- Each matching bookmark once, newest first. On an unchanged database with primary keys, a client
-- that starts without a cursor and returns each cursor while it lives, by a clock after the first
-- second of 1970, gets, page after page and whatever the page size, all the bookmarks of the user
-- that match the query, in the order of creation and identifier, the newest first; it needs at most
-- one request more than there are. It is assumed that no cursor on the way, for a matching row and a
-- page up to their number, is longer than the 2048 characters that the codec reads.
pub walk_complete :
    (lib : CursorLibrary) (ttl : ℕ) (text : TextLibrary) (db : Database) (user : ℕ)
    (query : BookmarkQuery) (readings : List (DateTime × DateTime))
    → IsCursorLibrary lib ttl
    → IsKey db.bookmarks
    → All IsStored db.bookmarks
    → 1 ≤ user
    → 1 ≤ query.page_size
    → InTime CanIssue (Lives ttl) none readings
    → AllFit text db user query (Short lib ttl) readings
    → length (matching text db user query) < length readings
    → walk (cursor_codec lib ttl) text db user query readings none
      ≡ ok (map public_bookmark (map (snapshot_of db user) (matching text db user query)))
walk_complete lib ttl text db user query readings law key stored owner size t f h =
    walk-matching text db user query (cursor_codec lib ttl) CanIssue (Lives ttl) (Short lib ttl)
      (cursor_codec-IsCodec lib ttl law) key stored owner size readings t f h
