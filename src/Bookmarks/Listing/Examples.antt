-- ===== src/Bookmarks/Listing/Examples.antt =====
-- Both ways to list, at three bookmarks of two users.
use backend_exercise.Prelude.{
  ℕ, zero, suc, ◌+◌, ◌*◌, ◌<◌, ◌≤◌, ◌≡◌, refl, subst, Bool, true, none, List, [], ◌∷◌, String, map,
  take, Result, ok, raise, ok-inj, arith, length, leb, All,
}
use Prim.Native.String.{count}
use backend_exercise.Clock.{DateTime, utc, second, normalize_utc, normalize_utc-utc}
use backend_exercise.Sorting.{insert_by, order_by}
use backend_exercise.Bookmarks.Models.{Bookmark, Database, BookmarkQuery, TextLibrary}
use backend_exercise.Bookmarks.Repository.{snapshot_of, search_predicates}
use backend_exercise.Bookmarks.Repository.Offsets
use backend_exercise.Bookmarks.Repository.Pages.{IsKey, boundary_at}
use backend_exercise.Bookmarks.Listing.{public_bookmark}
use backend_exercise.Bookmarks.Cursor.{encode, epoch}
use backend_exercise.Bookmarks.Cursor.Issued.{Lives}
use backend_exercise.Bookmarks.Cursor.Examples.{lib, lib-IsCursorLibrary}
use backend_exercise.Bookmarks.Listing.Walk.{walk, matching, AllFit, InTime}
use backend_exercise.Bookmarks.Listing.Complete.{cursor_codec, CanIssue, Short, walk_complete}

abbrev bookmark : (id user_id created_at : ℕ) → Bookmark
bookmark id user_id created_at = record {
  id = id;
  url = "https://example.invalid/";
  title = "a title";
  description = none;
  user_id = user_id;
  created_at = created_at;
  updated_at = created_at;
}

abbrev database : Database
database = record {
  bookmarks = bookmark 1 1 5 ∷ bookmark 2 2 6 ∷ bookmark 3 1 7 ∷ [];
  tags = [];
  bookmark_tags = [];
}

abbrev text : TextLibrary
text = record { strip = λ s. s; lower = λ s. s; title_like = λ t p. true }

abbrev query : BookmarkQuery
query = record {
  tag = none;
  q = none;
  created_from = none;
  created_to = none;
  updated_from = none;
  updated_to = none;
  page = 1;
  page_size = 1;
}

-- So many seconds after the first moment of 1970.
abbrev at : ℕ → DateTime
at n = utc (epoch + n * second)

abbrev readings : List (DateTime × DateTime)
readings = (at 10, at 11) ∷ (at 12, at 13) ∷ (at 14, at 15) ∷ []

two_match : matching text database 1 query ≡ bookmark 3 1 7 ∷ bookmark 1 1 5 ∷ []
unfolding search_predicates insert_by order_by
two_match = refl

enough : length (matching text database 1 query) < length readings
enough = rw two_match (omega arith)

database-IsKey : IsKey database.bookmarks
database-IsKey = ((refl, (refl, tt)), ((refl, tt), (tt, tt)))

can_issue : (n : ℕ) → 1 ≤ n → n ≤ 20 → CanIssue (at n)
can_issue n h l = (epoch + n * second, normalize_utc-utc (epoch + n * second), ground arith)

alive : (m n : ℕ) → 1 ≤ m → m ≤ n → n ≤ 20 → Lives 60 (at m) (at n)
alive m n h l k = (
  epoch + m * second,
  epoch + n * second,
  normalize_utc-utc (epoch + m * second),
  normalize_utc-utc (epoch + n * second),
  ground arith,
  ground arith,
  ground arith,
)

in_time : InTime CanIssue (Lives 60) none readings
in_time = (
  tt,
  (
    can_issue 11 (omega arith) (omega arith),
    (
      alive 11 12 (omega arith) (omega arith) (omega arith),
      (
        can_issue 13 (omega arith) (omega arith),
        (
          alive 13 14 (omega arith) (omega arith) (omega arith),
          (can_issue 15 (omega arith) (omega arith), tt),
        ),
      ),
    ),
  ),
)

-- Every token that may be issued on the way, at its length.
abbrev is_short : Result String → Bool
is_short (ok token) = leb (count token) 2048
is_short (raise e) = true

short : (m : Result String) (token : String) → is_short m ≡ true → m ≡ ok token → count token ≤ 2048
short (ok t) token h e =
    let same = ok-inj t token e in subst (λ x. count x ≤ 2048) same (ground arith)
short (raise e) token h e' = absurd (ground arith)

abbrev issued_length : Bookmark → ℕ → DateTime → Bool
issued_length b page now = is_short (encode lib 60 1 query (boundary_at b page) now)

lengths :
    (page : ℕ)
    → page ≤ 2
    → All
        (λ (reading : DateTime × DateTime).
          All (λ b. issued_length b page reading.1 ≡ true) (bookmark 3 1 7 ∷ bookmark 1 1 5 ∷ []))
        readings
unfolding encode normalize_utc
lengths zero h = ((refl, (refl, tt)), ((refl, (refl, tt)), ((refl, (refl, tt)), tt)))
lengths (suc zero) h = ((refl, (refl, tt)), ((refl, (refl, tt)), ((refl, (refl, tt)), tt)))
lengths (suc (suc zero)) h = ((refl, (refl, tt)), ((refl, (refl, tt)), ((refl, (refl, tt)), tt)))
lengths (suc (suc (suc n))) h = absurd (omega arith)

all_fit : AllFit text database 1 query (Short lib 60) readings
all_fit = rw two_match (
    (
      (λ p h t e. short _ t (lengths p h).0.0 e, (λ p h t e. short _ t (lengths p h).0.1.0 e, tt)),
      (
        (
          λ p h t e. short _ t (lengths p h).1.0.0 e,
          (λ p h t e. short _ t (lengths p h).1.0.1.0 e, tt),
        ),
        (
          (
            λ p h t e. short _ t (lengths p h).1.1.0.0 e,
            (λ p h t e. short _ t (lengths p h).1.1.0.1.0 e, tt),
          ),
          tt,
        ),
      ),
    ))

walk_complete_example :
    walk (cursor_codec lib 60) text database 1 query readings none
    ≡ ok (map public_bookmark (map (snapshot_of database 1) (matching text database 1 query)))
walk_complete_example =
    walk_complete lib 60 text database 1 query readings (lib-IsCursorLibrary 60) database-IsKey
      (
        record { id_positive = omega arith; in_calendar = omega arith },
        (
          record { id_positive = omega arith; in_calendar = omega arith },
          (record { id_positive = omega arith; in_calendar = omega arith }, tt),
        ),
      )
      (omega arith) (omega arith) in_time all_fit enough

first_pages-lem_example :
    Offsets.first_pages text database 1 query 2
    ≡ map (snapshot_of database 1) (take (2 * 1) (Offsets.matching text database 1 query))
first_pages-lem_example = Offsets.first_pages-lem text database 1 query 2
