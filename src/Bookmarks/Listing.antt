-- ===== src/Bookmarks/Listing.antt =====
-- The lists of app/bookmarks/service.py: `BookmarkService.list` and `list_cursor`. The database is
-- the SQLite read snapshot that each of them begins.
pub mod Codec
pub mod Walk
pub mod Complete
mod Examples
use backend_exercise.Prelude.{
  ℕ, ◌+◌, Bool, true, false, Option, none, some, List, [], ◌∷◌, String, Result, ok, raise,
  index_error, map, ◌>>=◌,
}
use backend_exercise.Clock.{DateTime}
use backend_exercise.Bookmarks.Models.{
  Database, BookmarkSnapshot, BookmarkQuery, CursorBoundary, TextLibrary,
}
use backend_exercise.Bookmarks.Repository.{search_owned, search_owned_after}
use backend_exercise.Bookmarks.Repository.Pages.{last_of}

pub record BookmarkPublic : Type 0 where
  pub id : ℕ
  pub url : String
  pub title : String
  pub description : Option String
  pub tags : List String
  pub created_at : ℕ
  pub updated_at : ℕ

-- `_public_bookmark`
unfoldable pub public_bookmark : BookmarkSnapshot → BookmarkPublic
public_bookmark s = record {
  id = s.id;
  url = s.url;
  title = s.title;
  description = s.description;
  tags = s.tags;
  created_at = s.created_at;
  updated_at = s.updated_at;
}

pub record BookmarkList : Type 0 where
  pub items : List BookmarkPublic
  pub total : ℕ
  pub page : ℕ
  pub page_size : ℕ

pub record CursorListResult : Type 0 where
  pub body : BookmarkList
  pub next_cursor : Option String

-- `list`
unfoldable pub list : TextLibrary → Database → (user_id : ℕ) → BookmarkQuery → BookmarkList
unfolding public_bookmark search_owned
list text db user_id query =
    let (snapshots, total) = search_owned text db user_id query in
    record {
      items = map public_bookmark snapshots;
      total = total;
      page = query.page;
      page_size = query.page_size;
    }

-- What `list_cursor` uses of `BookmarkCursorCodec`.
pub record CursorCodec : Type 0 where
  pub encode : (owner_id : ℕ) → BookmarkQuery → CursorBoundary → (now : DateTime) → Result String
  pub decode :
      (value : String) → (owner_id : ℕ) → BookmarkQuery → (now : DateTime) → Result CursorBoundary

abbrev pub decoded :
    CursorCodec → ℕ → BookmarkQuery → DateTime → Option String → Result (Option CursorBoundary)
decoded codec user_id query now none = ok none
decoded codec user_id query now (some cursor) = do
  boundary ← codec.decode cursor user_id query now
  ok (some boundary)

abbrev pub page_of : Option CursorBoundary → ℕ
page_of none = 1
page_of (some boundary) = boundary.page

-- The continuation, whose boundary is the last row of the page.
abbrev continuation :
    CursorCodec
    → ℕ
    → BookmarkQuery
    → DateTime
    → ℕ
    → Option BookmarkSnapshot
    → Result (Option String)
continuation codec user_id query now page none = raise index_error
continuation codec user_id query now page (some last) = do
  token ←
      codec.encode user_id query
        (record { created_at = last.created_at; bookmark_id = last.id; page = page + 1 }) now
  ok (some token)

abbrev next_cursor_of :
    CursorCodec
    → ℕ
    → BookmarkQuery
    → DateTime
    → ℕ
    → List BookmarkSnapshot
    → Bool
    → Result (Option String)
next_cursor_of codec user_id query now page snapshots true =
    continuation codec user_id query now page (last_of snapshots)
next_cursor_of codec user_id query now page snapshots false = ok none

-- `list_cursor` on what `search_owned_after` returned, and after the cursor is decoded
unfoldable pub listed :
    CursorCodec
    → (user_id : ℕ) → BookmarkQuery
    → (now : DateTime) → Option CursorBoundary
    → List BookmarkSnapshot × ℕ × Bool
    → Result CursorListResult
unfolding public_bookmark
listed codec user_id query now boundary (snapshots, total, has_more) = do
  next_cursor ← next_cursor_of codec user_id query now (page_of boundary) snapshots has_more
  ok (record {
    body = record {
      items = map public_bookmark snapshots;
      total = total;
      page = page_of boundary;
      page_size = query.page_size;
    };
    next_cursor = next_cursor;
  })

unfoldable pub keyset_page :
    CursorCodec
    → TextLibrary
    → Database
    → (user_id : ℕ) → BookmarkQuery
    → (now : DateTime) → Option CursorBoundary
    → Result CursorListResult
unfolding listed
keyset_page codec text db user_id query now boundary =
    listed codec user_id query now boundary (search_owned_after text db user_id query boundary)

-- `list_cursor`: it reads the clock to decode the cursor it is given, and again to encode the next.
unfoldable pub list_cursor :
    CursorCodec
    → TextLibrary
    → Database
    → (user_id : ℕ) → BookmarkQuery
    → (cursor : Option String) → (now later : DateTime) → Result CursorListResult
unfolding keyset_page
list_cursor codec text db user_id query cursor now later = do
  boundary ← decoded codec user_id query now cursor
  keyset_page codec text db user_id query later boundary
