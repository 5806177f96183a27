-- ===== src/Bookmarks/Repository/Offsets.antt =====
-- The pages of `search_owned`, which counts rows from the start.
use backend_exercise.Prelude.{
  ℕ, zero, suc, ◌+◌, ◌-◌, ◌*◌, ◌≤◌, ◌≡◌, refl, sym, ◌∙◌, ap, subst, inl, inr, Bool-cases, List, [],
  ◌∷◌, ◌++◌, map, arith, map-append, keep, take, drop, length, leb, if◌then◌else◌,
}
use native.Mathlib.Nat.{suc-mul}
use backend_exercise.Sorting.{order_by, length-order_by}
use backend_exercise.Bookmarks.Models.{
  Bookmark, Database, BookmarkSnapshot, BookmarkQuery, TextLibrary,
}
use backend_exercise.Bookmarks.Repository.{newer, snapshot_of, search_predicates, search_owned}

module _ {ℓ} {A : Type ℓ} where
  drop_all : (n : ℕ) (l : List A) → length l ≤ n → drop n l ≡ []
  drop_all zero [] h = refl
  drop_all zero (a ∷ l) h = absurd (omega arith)
  drop_all (suc n) [] h = refl
  drop_all (suc n) (a ∷ l) h = drop_all n l (omega arith)

  take_nil : (n : ℕ) → take {A = A} n [] ≡ []
  take_nil zero = refl
  take_nil (suc n) = refl

  take-split : (n p : ℕ) (l : List A) → take n l ++ take p (drop n l) ≡ take (n + p) l
  take-split zero p l = let same : p ≡ 0 + p = omega arith in ap (λ (m : ℕ). take m l) same
  take-split (suc n) p [] = take_nil p ∙ sym (take_nil (suc n + p))
  take-split (suc n) p (a ∷ l) =
      let same : suc (n + p) ≡ suc n + p = omega arith in
      subst (λ (m : ℕ). a ∷ (take n l ++ take p (drop n l)) ≡ take m (a ∷ l)) same
        (ap (λ r. a ∷ r) (take-split n p l))

module _ (text : TextLibrary) (db : Database) (user : ℕ) (query : BookmarkQuery) where
  abbrev pub matching : List Bookmark
  matching = order_by newer (keep (search_predicates text db user query) db.bookmarks)

  abbrev at_page : ℕ → BookmarkQuery
  at_page n = record query { page = n }

  empty_page :
      (m : ℕ)
      → length matching ≤ m
      → [] ≡ map (snapshot_of db user) (take query.page_size (drop m matching))
  empty_page m h = rw (drop_all m matching h) (rw (take_nil {A = Bookmark} query.page_size) refl)

  abbrev cut : ℕ → List BookmarkSnapshot × ℕ
  cut m =
      if leb (length (keep (search_predicates text db user query) db.bookmarks)) m
      then ([], length (keep (search_predicates text db user query) db.bookmarks))
      else (
        map (snapshot_of db user) (take query.page_size (drop m matching)),
        length (keep (search_predicates text db user query) db.bookmarks),
      )

  page_at : (m : ℕ) → (cut m).0 ≡ map (snapshot_of db user) (take query.page_size (drop m matching))
  page_at m =
      elim (Bool-cases
        (leb (length (keep (search_predicates text db user query) db.bookmarks)) m)) [
          | inl h ↦ rw h (
              empty_page m (
                ground (
                  arith,
                  length-order_by newer (keep (search_predicates text db user query) db.bookmarks),
                )))
          | inr h ↦ rw h refl
        ]

  search_owned-slice :
      (n : ℕ)
      → (search_owned text db user (at_page (suc n))).0
        ≡ map (snapshot_of db user) (take query.page_size (drop (n * query.page_size) matching))
  unfolding search_owned search_predicates
  search_owned-slice n =
      let same : (suc n - 1) * query.page_size ≡ n * query.page_size =
        let m : suc n - 1 ≡ n = omega arith in rw m refl in
      rw same (page_at (n * query.page_size))

  -- The first pages, one after another.
  unfoldable pub first_pages : ℕ → List BookmarkSnapshot
  unfolding search_owned
  first_pages zero = []
  first_pages (suc n) = first_pages n ++ (search_owned text db user (at_page (suc n))).0

  -- Offset pages tile the answer. The pages 1 to n of a query, one after another, are the first n
  -- times the page size of all its matching rows, newest first; so no row of an unchanged database
  -- is missing or twice, and the early return past the end changes nothing.
  pub first_pages-lem :
      (n : ℕ) → first_pages n ≡ map (snapshot_of db user) (take (n * query.page_size) matching)
  unfolding first_pages
  first_pages-lem zero = let none_yet : 0 * query.page_size ≡ 0 = omega arith in rw none_yet refl
  first_pages-lem (suc n) =
      let size : n * query.page_size + query.page_size ≡ suc n * query.page_size =
        sym (suc-mul n query.page_size) in
      rw (search_owned-slice n) (
        rw (first_pages-lem n) (
          sym (map-append (snapshot_of db user) (take (n * query.page_size) matching) _)
          ∙ ap (map (snapshot_of db user))
              (take-split (n * query.page_size) query.page_size matching)
          ∙ ap (λ (m : ℕ). map (snapshot_of db user) (take m matching)) size))
