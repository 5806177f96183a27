-- ===== src/Bookmarks/Repository/Pages.antt =====
-- Keyset pagination: `search_owned_after` under the boundaries that `BookmarkService.list_cursor`
-- (app/bookmarks/service.py) makes of the last row of each page.
use backend_exercise.Prelude.{
  ℕ, suc, ◌≡◌, Bool, true, false, inl, inr, Bool-cases, some, List, [], ◌∷◌, arith, All, keep, take,
  drop, eqb,
}
use backend_exercise.Sorting.{
  Sorted, IsOrder, insert_by, order_by, All-order_by, All-insert_by, All-keep,
}
use backend_exercise.Sorting.Keyset.{IsStrict, last_of, keep-after_last}
pub use backend_exercise.Sorting.Keyset.{keep-&&, last_of, last-All}
use backend_exercise.Bookmarks.Models.{Bookmark, CursorBoundary}
use backend_exercise.Bookmarks.Repository.{newer, older_than}

pub newer-IsOrder : IsOrder newer
newer-IsOrder = record { total = λ a b h. ground arith; trans = λ a b c h k. ground arith }

-- The primary key.
abbrev Differs : Bookmark → Bookmark → Type 0
Differs a b = eqb a.id b.id ≡ false

abbrev pub IsKey : List Bookmark → Type 0
IsKey [] = Unit
IsKey (a ∷ l) = All (Differs a) l × IsKey l

-- Strictly older, as the keyset predicate at the boundary of a row tests it.
abbrev pub boundary_at : Bookmark → ℕ → CursorBoundary
boundary_at a page = record { created_at = a.created_at; bookmark_id = a.id; page = page }

abbrev pub older : Bookmark → Bookmark → Bool
older a b = older_than (some (boundary_at a 0)) b

All-older :
    (a b : Bookmark) (l : List Bookmark)
    → older a b ≡ true
    → All (λ c. older b c ≡ true) l
    → All (λ c. older a c ≡ true) l
All-older a b [] h r = tt
All-older a b (c ∷ l) h r = (ground arith, All-older a b l h r.1)

insert-strict :
    (a : Bookmark) (l : List Bookmark)
    → All (Differs a) l
    → Sorted older l
    → Sorted older (insert_by newer a l)
unfolding insert_by
insert-strict a [] d s = (tt, tt)
insert-strict a (b ∷ l) d s = elim (Bool-cases (newer a b)) [
  | inl h ↦
      let first : older a b ≡ true = ground arith in rw h ((first, All-older a b l first s.0), s)
  | inr h ↦
      let first : older b a ≡ true = ground arith in
      rw h (All-insert_by (λ c. older b c ≡ true) newer a l first s.0, insert-strict a l d.1 s.1)
]

pub order_by-strict : (l : List Bookmark) → IsKey l → Sorted older (order_by newer l)
unfolding order_by
order_by-strict [] k = tt
order_by-strict (a ∷ l) k =
    insert-strict a (order_by newer l) (All-order_by (Differs a) newer l k.0)
      (order_by-strict l k.1)

pub keep-IsKey : (p : Bookmark → Bool) (l : List Bookmark) → IsKey l → IsKey (keep p l)
keep-IsKey p [] k = tt
keep-IsKey p (a ∷ l) k = ground (arith, All-keep (Differs a) p l k.0, keep-IsKey p l k.1)

older-IsStrict : IsStrict older
older-IsStrict = record { irrefl = λ a. ground arith; asym = λ a b h. ground arith }

-- After the last row of a page come exactly the rows that the page left.
pub keep-after_page :
    (n : ℕ) (l : List Bookmark) (r : Bookmark)
    → Sorted older l
    → last_of (take (suc n) l) ≡ some r
    → keep (older r) l ≡ drop (suc n) l
keep-after_page n l r s h = keep-after_last older older-IsStrict n l r s h
