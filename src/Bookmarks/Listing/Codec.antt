-- ===== src/Bookmarks/Listing/Codec.antt =====
-- What `list_cursor` relies on of its codec: a cursor that it issues is read back, by the same owner
-- for the same query, as the boundary that it was made of, while it lives. Complete shows that the
-- codec of app/bookmarks/pagination.py is one.
use backend_exercise.Prelude.{ℕ, String, ◌≤◌, ◌<◌, ◌≡◌, ok}
use backend_exercise.Clock.{DateTime, end_of_time}
use backend_exercise.Bookmarks.Models.{BookmarkQuery, CursorBoundary}
use backend_exercise.Bookmarks.Listing.{CursorCodec}

pub record IsBoundary (b : CursorBoundary) : Type 0 where
  pub id_positive : 1 ≤ b.bookmark_id
  pub page_positive : 1 ≤ b.page
  pub in_calendar : b.created_at < end_of_time

-- `Ready now`: a cursor can be issued then. `Live issued now`: a cursor issued then has not expired.
-- `Fits owner query boundary issued`: the cursor that is issued is not too long to be read back.
pub record IsCodec (codec : CursorCodec) (Ready : DateTime → Type 0)
    (Live : DateTime → DateTime → Type 0)
    (Fits : ℕ → BookmarkQuery → CursorBoundary → DateTime → Type 0) : Type 0 where
  pub issue :
      (owner : ℕ) (query : BookmarkQuery) (b : CursorBoundary) (issued : DateTime)
      → 1 ≤ owner
      → 1 ≤ query.page_size
      → IsBoundary b
      → Ready issued
      → Fits owner query b issued
      → (token : String) × (codec.encode owner query b issued ≡ ok token)
        × ((now : DateTime) → Live issued now → codec.decode token owner query now ≡ ok b)
