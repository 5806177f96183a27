-- ===== src/Bookmarks/Service/Examples.antt =====
-- The requests that write, at one user's bookmark.
use backend_exercise.Prelude.{
  ℕ, ◌+◌, ◌≤◌, ◌<◌, ◌≡◌, ◌⊎◌, refl, false, none, some, [], ◌∷◌, ok, not_found_error, arith,
}
use backend_exercise.Clock.{utc, normalize_utc, normalize_utc-utc}
use backend_exercise.Stats.Snapshots.{empty}
use backend_exercise.Stats.Publisher.{StatsInvalidationPublisher}
use backend_exercise.Bookmarks.Models.{Bookmark, BookmarkSnapshot}
use backend_exercise.Bookmarks.Policy.{BookmarkPatchValues, classify_patch, next_updated_at}
use backend_exercise.Sorting.{insert_by, order_by}
use backend_exercise.Bookmarks.Policy.{
  normalize_tag_name, normalized_names, member, dedup, normalize_tag_membership,
}
use backend_exercise.Bookmarks.Models.{TextLibrary}
use backend_exercise.Bookmarks.Policy.Tags.{Canonical, normalize_tag_membership-Canonical}
use backend_exercise.Bookmarks.Policy.Patches.{
  Resolves, classify_patch-Resolves, next_updated_at-eq-ok,
}
use backend_exercise.Bookmarks.Service.{World}
use backend_exercise.Bookmarks.Service.Outcomes.{
  delete_request, patch_request, respond, Handled, respond-Handled,
}
use backend_exercise.Bookmarks.Service.Ownership.{NotOwned, respond-NotOwned}

abbrev bookmark : Bookmark
bookmark = record {
  id = 1;
  url = "https://example.invalid/";
  title = "a title";
  description = none;
  user_id = 1;
  created_at = 5;
  updated_at = 5;
}

abbrev publisher : StatsInvalidationPublisher
publisher = record {
  store = empty;
  queue = [];
  capacity = 2;
  reconciliation_required = false;
  overflow_logged = false;
  enqueued_count = 0;
  overflow_count = 0;
  failure_count = 0;
  reconciliation_epoch = 0;
}

abbrev world : World
world = record {
  store = record {
    db = record { bookmarks = bookmark ∷ []; tags = []; bookmark_tags = [] };
    dirty = [];
  };
  publisher = publisher;
}

abbrev retitled : BookmarkPatchValues
retitled = record { url = none; title = some "another title"; description = none; tags = none }

respond-Handled_example :
    Handled world 1 (delete_request 1) (respond world 1 (delete_request 1) (utc 9) 7 (ok tt))
respond-Handled_example = respond-Handled world 1 (delete_request 1) (utc 9) 7 (ok tt)

-- The bookmark is the first user's.
not_owned : NotOwned 2 1 world.store.db.bookmarks
not_owned = (λ same owner. absurd (omega (arith, owner)), tt)

respond-NotOwned_example :
    (respond world 2 (patch_request 1 retitled) (utc 9) 7 (ok tt) ≡ (some not_found_error, world))
    × (respond world 2 (delete_request 1) (utc 9) 7 (ok tt) ≡ (some not_found_error, world))
respond-NotOwned_example = respond-NotOwned world 2 1 retitled (utc 9) 7 (ok tt) not_owned

abbrev before : BookmarkSnapshot
before = record {
  id = 1;
  url = "https://example.invalid/";
  title = "a title";
  description = none;
  tags = "python" ∷ [];
  created_at = 5;
  updated_at = 5;
}

classify_patch-Resolves_example : Resolves before retitled (classify_patch before retitled)
classify_patch-Resolves_example = classify_patch-Resolves before retitled

stamped : next_updated_at (utc 5) (utc 3) ≡ ok 6
unfolding next_updated_at normalize_utc
stamped = refl

next_updated_at-eq-ok_example :
    (5 < 6) × (3 ≤ 6) × (((5 < 3) × ◌≡◌ {A = ℕ} 6 3) ⊎ ((3 ≤ 5) × ◌≡◌ {A = ℕ} 6 (5 + 1)))
next_updated_at-eq-ok_example =
    next_updated_at-eq-ok (utc 5) (utc 3) 5 3 6 (normalize_utc-utc 5) (normalize_utc-utc 3) stamped

program : Unit {0}
unfolding normalize_tag_name normalized_names member dedup normalize_tag_membership insert_by
    order_by
program = tt

abbrev plain : TextLibrary
plain = record { strip = λ s. s; lower = λ s. s; title_like = λ t p. false }

kept_once : normalize_tag_membership plain ("b" ∷ "a" ∷ "b" ∷ []) ≡ ok ("a" ∷ "b" ∷ [])
unfolding program
kept_once = refl

normalize_tag_membership-Canonical_example : Canonical plain ("b" ∷ "a" ∷ "b" ∷ []) ("a" ∷ "b" ∷ [])
normalize_tag_membership-Canonical_example =
    normalize_tag_membership-Canonical plain ("b" ∷ "a" ∷ "b" ∷ []) ("a" ∷ "b" ∷ []) kept_once
