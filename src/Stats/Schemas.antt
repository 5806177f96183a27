-- ===== src/Stats/Schemas.antt =====
-- The values of app/bookmarks/stats/schemas.py.
use backend_exercise.Prelude.{ℕ, String, List}

pub record TopTag : Type 0 where
  pub name : String
  pub count : ℕ

pub record BookmarksPerMonth : Type 0 where
  pub month : String
  pub count : ℕ

pub record BookmarkStats : Type 0 where
  pub total_bookmarks : ℕ
  pub total_tags : ℕ
  pub top_tags : List TopTag
  pub bookmarks_per_month : List BookmarksPerMonth
