-- ===== src/Bookmarks/Models.antt =====
-- The tables of app/bookmarks/models.py, and the values of app/bookmarks/policy.py,
-- app/bookmarks/schemas.py and app/bookmarks/pagination.py that the queries pass around. A date is
-- its number of days since the first of Python's calendar.
use backend_exercise.Prelude.{ℕ, Bool, String, Option, List}

pub record Bookmark : Type 0 where
  pub id : ℕ
  pub url : String
  pub title : String
  pub description : Option String
  pub user_id : ℕ
  pub created_at : ℕ
  pub updated_at : ℕ

pub record Tag : Type 0 where
  pub id : ℕ
  pub name : String

pub record BookmarkTag : Type 0 where
  pub bookmark_id : ℕ
  pub tag_id : ℕ

pub record Database : Type 0 where
  pub bookmarks : List Bookmark
  pub tags : List Tag
  pub bookmark_tags : List BookmarkTag

pub record BookmarkSnapshot : Type 0 where
  pub id : ℕ
  pub url : String
  pub title : String
  pub description : Option String
  pub tags : List String
  pub created_at : ℕ
  pub updated_at : ℕ

pub record BookmarkQuery : Type 0 where
  pub tag : Option String
  pub q : Option String
  pub created_from : Option ℕ
  pub created_to : Option ℕ
  pub updated_from : Option ℕ
  pub updated_to : Option ℕ
  pub page : ℕ
  pub page_size : ℕ

pub record CursorBoundary : Type 0 where
  pub created_at : ℕ
  pub bookmark_id : ℕ
  pub page : ℕ

-- What the queries and the tag names use of other code: Python's `str.strip` and `str.lower`, and
-- SQLite's `lower(title) LIKE pattern ESCAPE '\'`.
pub record TextLibrary : Type 0 where
  pub strip : String → String
  pub lower : String → String
  pub title_like : (title pattern : String) → Bool
