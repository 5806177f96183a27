-- ===== src/Bookmarks/Listing/Walk.antt =====
-- A client that follows the cursors of `list_cursor` to the end.
use backend_exercise.Prelude.{
  ℕ, zero, suc, ◌+◌, ◌≤◌, ◌<◌, ◌≡◌, refl, sym, ◌∙◌, ap, ◌&&◌, true, false, inl, inr, Bool-cases,
  Option, none, some, List, [], ◌∷◌, ◌++◌, map, arith, map-append, All, keep, take, drop, length,
  length-drop, take-append-drop, ltb, String, Result, ok, ◌>>=◌,
}
use backend_exercise.Clock.{DateTime, end_of_time}
use backend_exercise.Sorting.{Sorted, order_by, All-order_by, All-keep, keep-order_by}
use backend_exercise.Bookmarks.Models.{
  Bookmark, Database, BookmarkQuery, CursorBoundary, TextLibrary,
}
use backend_exercise.Bookmarks.Repository.{
  newer, older_than, snapshot_of, search_predicates, search_owned_after,
}
use backend_exercise.Bookmarks.Repository.Pages.{
  newer-IsOrder, IsKey, boundary_at, older, order_by-strict, keep-IsKey, keep-&&, last_of, last-All,
  keep-after_page,
}
use backend_exercise.Bookmarks.Listing.{
  BookmarkPublic, public_bookmark, CursorCodec, decoded, page_of, listed, keyset_page, list_cursor,
  CursorListResult,
}
use backend_exercise.Sorting.Slices.{
  keep-keep, keep-true, All-test, take-take, more_iff, take_all, last_of-take, Sorted-keep,
  last_of-map,
}
use backend_exercise.Bookmarks.Listing.Codec.{IsBoundary, IsCodec}

-- Every matching row, newest first.
abbrev pub matching : TextLibrary → Database → ℕ → BookmarkQuery → List Bookmark
matching text db user query =
    order_by newer (keep (search_predicates text db user query) db.bookmarks)

-- The values of the rows that the columns can hold.
pub record IsStored (b : Bookmark) : Type 0 where
  pub id_positive : 1 ≤ b.id
  pub in_calendar : b.created_at < end_of_time

-- One request after another, each with its two readings of the clock, until there is no cursor.
unfoldable pub walk :
    CursorCodec
    → TextLibrary
    → Database
    → ℕ
    → BookmarkQuery
    → List (DateTime × DateTime)
    → Option String
    → Result (List BookmarkPublic)
unfolding list_cursor
walk codec text db user query [] cursor = ok []
walk codec text db user query ((now, later) ∷ readings) cursor = do
  r ← list_cursor codec text db user query cursor now later
  elim r.next_cursor [
    | none ↦ ok r.body.items
    | some token ↦ do
      rest ← walk codec text db user query readings (some token)
      ok (r.body.items ++ rest)
  ]

-- Readings at which cursors can be issued, and each cursor lives until it comes back.
module _ (Ready : DateTime → Type 0) (Live : DateTime → DateTime → Type 0) where
  abbrev pub Alive : Option DateTime → DateTime → Type 0
  Alive none now = Unit
  Alive (some issued) now = Live issued now

  abbrev pub InTime : Option DateTime → List (DateTime × DateTime) → Type 0
  InTime issued [] = Unit
  InTime issued ((now, later) ∷ readings) =
      Alive issued now × (Ready later × InTime (some later) readings)

older_than-older :
    (o : Option CursorBoundary) (r b : Bookmark)
    → older_than o r ≡ true
    → older r b ≡ true
    → older_than o b ≡ true
older_than-older none r b h q = refl
older_than-older (some boundary) r b h q = ground arith

module _ (text : TextLibrary) (db : Database) (user : ℕ) (query : BookmarkQuery) where
  abbrev rows : Option CursorBoundary → List Bookmark
  rows o = keep (older_than o) (matching text db user query)

  page_rows :
      (o : Option CursorBoundary)
      → order_by newer
          (keep (λ b. search_predicates text db user query b && older_than o b) db.bookmarks)
        ≡ rows o
  page_rows o =
      ap (order_by newer)
        (keep-&& (search_predicates text db user query) (older_than o) db.bookmarks)
      ∙ sym (
          keep-order_by newer newer-IsOrder (older_than o)
            (keep (search_predicates text db user query) db.bookmarks))

  found_after :
      (o : Option CursorBoundary)
      → search_owned_after text db user query o ≡ (
        map (snapshot_of db user) (take query.page_size (rows o)),
        length (keep (search_predicates text db user query) db.bookmarks),
        ltb query.page_size (length (rows o)),
      )
  unfolding search_owned_after
  found_after o =
      rw (page_rows o)
        (rw (take-take query.page_size (rows o)) (rw (more_iff query.page_size (rows o)) refl))

  rows-Sorted : IsKey db.bookmarks → (o : Option CursorBoundary) → Sorted older (rows o)
  rows-Sorted k o =
      Sorted-keep older (older_than o) (matching text db user query)
        (order_by-strict _ (keep-IsKey (search_predicates text db user query) db.bookmarks k))

  -- The rows after the last one of a page.
  rows-after :
      IsKey db.bookmarks
      → (o : Option CursorBoundary) (n page : ℕ) (r : Bookmark) → 1 ≤ n
      → last_of (take n (rows o)) ≡ some r
      → rows (some (boundary_at r page)) ≡ drop n (rows o)
  rows-after k o zero page r pos h = absurd (omega arith)
  rows-after k o (suc n) page r pos h =
      let inside : older_than o r ≡ true =
        last-All (λ b. older_than o b ≡ true) (suc n) (rows o) r
          (All-test (older_than o) (matching text db user query)) h in
      sym (
        keep-keep (older r) (older_than o) (matching text db user query)
          (λ b q. older_than-older o r b inside q))
      ∙ keep-after_page n (rows o) r (rows-Sorted k o) h

  rows-IsStored : All IsStored db.bookmarks → (o : Option CursorBoundary) → All IsStored (rows o)
  rows-IsStored h o = All-keep IsStored (older_than o) (matching text db user query) (
      All-order_by IsStored newer _
        (All-keep IsStored (search_predicates text db user query) db.bookmarks h))

  abbrev shown : List Bookmark → List BookmarkPublic
  shown l = map public_bookmark (map (snapshot_of db user) l)

  shown_split : (n : ℕ) (l : List Bookmark) → shown (take n l) ++ shown (drop n l) ≡ shown l
  shown_split n l =
      sym (
        map-append public_bookmark (map (snapshot_of db user) (take n l))
          (map (snapshot_of db user) (drop n l)))
      ∙ ap (map public_bookmark) (sym (map-append (snapshot_of db user) (take n l) (drop n l)))
      ∙ ap shown (take-append-drop n l)

  abbrev result : Option CursorBoundary → List Bookmark → Option String → CursorListResult
  result o l next = record {
    body = record {
      items = shown l;
      total = length (keep (search_predicates text db user query) db.bookmarks);
      page = page_of o;
      page_size = query.page_size;
    };
    next_cursor = next;
  }

  keyset-end :
      (codec : CursorCodec) (now : DateTime) (o : Option CursorBoundary)
      → ltb query.page_size (length (rows o)) ≡ false
      → keyset_page codec text db user query now o
        ≡ ok (result o (take query.page_size (rows o)) none)
  unfolding keyset_page listed
  keyset-end codec now o h = ap (listed codec user query now o) (found_after o) ∙ rw h refl

  keyset-more :
      (codec : CursorCodec) (now : DateTime) (o : Option CursorBoundary) (r : Bookmark)
      (token : String)
      → ltb query.page_size (length (rows o)) ≡ true
      → last_of (take query.page_size (rows o)) ≡ some r
      → codec.encode user query (boundary_at r (page_of o + 1)) now ≡ ok token
      → keyset_page codec text db user query now o
        ≡ ok (result o (take query.page_size (rows o)) (some token))
  unfolding keyset_page listed snapshot_of
  keyset-more codec now o r token h l e =
      ap (listed codec user query now o) (found_after o)
      ∙ rw h
          (rw (last_of-map (snapshot_of db user) (take query.page_size (rows o)) r l) (rw e refl))

  -- The cursors that a walk may need at one of its readings fit: the boundaries are its rows, and a
  -- page is no further than the number of rows.
  abbrev pub AllFit :
      (ℕ → BookmarkQuery → CursorBoundary → DateTime → Type 0) → List (DateTime × DateTime) → Type 0
  AllFit Fits readings =
      All
        (λ reading.
          All
            (λ r.
              (page : ℕ)
              → page ≤ length (matching text db user query)
              → Fits user query (boundary_at r page) reading.1)
            (matching text db user query))
        readings

  module _ (codec : CursorCodec) (Ready : DateTime → Type 0) (Live : DateTime → DateTime → Type 0)
      (Fits : ℕ → BookmarkQuery → CursorBoundary → DateTime → Type 0)
      (law : IsCodec codec Ready Live Fits) (k : IsKey db.bookmarks)
      (stored : All IsStored db.bookmarks) (owner : 1 ≤ user) (size : 1 ≤ query.page_size) where
    walk_from :
        (readings : List (DateTime × DateTime)) (issued : Option DateTime) (cursor : Option String)
        (o : Option CursorBoundary)
        → InTime Ready Live issued readings
        → AllFit Fits readings
        → page_of o + length (rows o) ≤ length (matching text db user query) + 1
        → ((now : DateTime)
            → Alive Ready Live issued now
            → decoded codec user query now cursor ≡ ok o)
        → length (rows o) < length readings
        → walk codec text db user query readings cursor ≡ ok (shown (rows o))
    unfolding walk list_cursor
    walk_from [] issued cursor o t f pages d h = absurd (omega arith)
    walk_from ((now, later) ∷ readings) issued cursor o t f pages d h =
        elim (Bool-cases (ltb query.page_size (length (rows o)))) [
          | inl more ↦
              let (r, last) = last_of-take query.page_size (rows o) size (ground arith) in
              let kept =
                last-All IsStored query.page_size (rows o) r (rows-IsStored stored o) last in
              let bounded : IsBoundary (boundary_at r (page_of o + 1)) = record {
                id_positive = kept.id_positive;
                page_positive = omega arith;
                in_calendar = kept.in_calendar;
              } in
              let (token, encoded, reads) =
                law.issue user query (boundary_at r (page_of o + 1)) later owner size bounded t.1.0
                  (last-All
                    (λ b.
                      (page : ℕ)
                      → page ≤ length (matching text db user query)
                      → Fits user query (boundary_at b page) later)
                    query.page_size (rows o) r (All-keep _ (older_than o) _ f.0) last
                    (page_of o + 1) (ground arith)) in
              let next = rows-after k o query.page_size (page_of o + 1) r size last in
              let rest =
                walk_from readings (some later) (some token) (some (boundary_at r (page_of o + 1)))
                  t.1.1 f.1 (rw next (ground (arith, pages, length-drop query.page_size (rows o))))
                  (λ n alive. rw (reads n alive) refl)
                  (rw next (ground (arith, length-drop query.page_size (rows o)))) in
              rw (d now t.0) (
                rw (keyset-more codec later o r token more last encoded)
                  (rw rest (rw next (ap (λ l. ok l) (shown_split query.page_size (rows o))))))
          | inr end ↦ rw (d now t.0) (
              rw (keyset-end codec later o end)
                (ap (λ l. ok (shown l)) (take_all query.page_size (rows o) (ground arith))))
        ]

    pub walk-matching :
        (readings : List (DateTime × DateTime))
        → InTime Ready Live none readings
        → AllFit Fits readings
        → length (matching text db user query) < length readings
        → walk codec text db user query readings none
          ≡ ok (map public_bookmark (map (snapshot_of db user) (matching text db user query)))
    walk-matching readings t f h =
        let every : rows none ≡ matching text db user query =
          keep-true (matching text db user query) in
        walk_from readings none none none t f (rw every (omega arith)) (λ now alive. refl)
          (rw every h)
        ∙ ap (λ l. ok (shown l)) every
