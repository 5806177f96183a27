-- ===== src/Bookmarks/Service/Outcomes.antt =====
-- What a request that writes leaves behind.
use backend_exercise.Prelude.{
  ℕ, ◌+◌, ◌≡◌, ◌⊎◌, inl, inr, refl, false, Bool-cases, Option, none, some, Error, Result, ok, raise,
  not_found_error, arith, ◌==◌, pair_eq, nat_eq, require, >>=-eq-ok, >>-eq-ok,
}
use backend_exercise.Clock.{DateTime, utc, normalize_utc}
use backend_exercise.Weekly.{utc_monday}
use backend_exercise.Dict
use backend_exercise.Events.{BookmarkStatsInvalidated}
use backend_exercise.Stats.Publisher.{publish}
use backend_exercise.Stats.Dirty.{Row, DirtyReason, marked_row}
use backend_exercise.Stats.Dirty.Acknowledge.{beq_refl}
use backend_exercise.Bookmarks.Models.{Database, BookmarkSnapshot}
use backend_exercise.Bookmarks.Policy.{
  BookmarkPatchValues, MaterialPatch, is_material, classify_patch, next_updated_at,
}
use backend_exercise.Bookmarks.Repository.{get_owned}
use backend_exercise.Bookmarks.Listing.{BookmarkPublic}
use backend_exercise.Bookmarks.Service.{
  Store, World, BookmarkCreate, Commit, required_snapshot, create_in, patch_in, delete_in, finish,
  create_bookmark, patch_found, patch_bookmark, delete_bookmark,
}
use backend_exercise.Bookmarks.Service.Seals.{Sealed, sealed-eq-ok}

-- The bookmark that an event names, as its owner sees it before or after the request.
abbrev Seen : Database → Database → ℕ → BookmarkStatsInvalidated → BookmarkSnapshot → Type 0
Seen before after user event snapshot =
    (get_owned before user event.bookmark_id ≡ some snapshot)
    ⊎ (get_owned after user event.bookmark_id ≡ some snapshot)

-- The marker of the bookmark's week is at a generation that is new and that no consumer has
-- completed, no other marker has changed, and one event has gone to the publisher.
pub record Committed (before : World) (user : ℕ) (after : World) : Type 0 where
  pub window : ℕ
  pub row : Row
  pub event : BookmarkStatsInvalidated
  pub snapshot : BookmarkSnapshot
  pub seen : Seen before.store.db after.store.db user event snapshot
  pub week : utc_monday (utc snapshot.created_at) ≡ ok window
  pub marked : Dict.get (user, window) after.store.dirty ≡ some row
  pub pending : (row.current_completed_generation ≡ 0) × (row.projection_completed_generation ≡ 0)
  pub advanced :
      (old : Row)
      → Dict.get (user, window) before.store.dirty ≡ some old
      → row.generation ≡ old.generation + 1
  pub others :
      (j : ℕ × ℕ)
      → ((user, window) == j) ≡ false
      → Dict.get j after.store.dirty ≡ Dict.get j before.store.dirty
  pub same_user : event.user_id ≡ user
  pub same_week : event.window_start ≡ utc window
  pub published : after.publisher ≡ (publish before.publisher event).1

-- From what a transaction commits to what its request leaves.
marked_row-generation :
    (o : Option Row) (reason : DirtyReason) (t : ℕ) (old : Row)
    → o ≡ some old
    → (marked_row o reason t).generation ≡ old.generation + 1
marked_row-generation none reason t old h = absurd (ground arith)
marked_row-generation (some r) reason t old h = ground arith

marked_row-pending :
    (o : Option Row) (reason : DirtyReason) (t : ℕ)
    → ((marked_row o reason t).current_completed_generation ≡ 0)
      × ((marked_row o reason t).projection_completed_generation ≡ 0)
marked_row-pending none reason t = (refl, refl)
marked_row-pending (some r) reason t = (refl, refl)

-- A commit that is prepared for a bookmark that its owner sees.
pub record Prepared {ℓ} {R : Type ℓ} (store : Store) (user : ℕ) (c : Commit R) : Type 0 where
  pub db : Database
  pub id : ℕ
  pub snapshot : BookmarkSnapshot
  pub seals : Sealed store db user id snapshot.created_at c
  pub seen : Seen store.db c.store.db user c.event snapshot

Prepared-Committed {ℓ} :
    {R : Type ℓ} (w : World) (user : ℕ) (c : Commit R)
    → Prepared w.store user c
    → Committed w user (finish w (ok tt) (ok c)).1
unfolding finish
Prepared-Committed w user c p =
    let s = p.seals in
    let o = Dict.get (user, s.window) w.store.dirty in
    let row = marked_row o s.reason s.time in
    record {
      window = s.window;
      row = row;
      event = c.event;
      snapshot = p.snapshot;
      seen = p.seen;
      week = s.week;
      marked = rw s.written (
          rw (Dict.get-put (user, s.window) (user, s.window) row w.store.dirty)
            (rw (beq_refl (user, s.window)) refl));
      pending = marked_row-pending o s.reason s.time;
      advanced = λ old h. marked_row-generation o s.reason s.time old h;
      others =
          λ j h. rw s.written (rw (Dict.get-put (user, s.window) j row w.store.dirty) (rw h refl));
      same_user = s.same_user;
      same_week = s.same_week;
      published = refl;
    }

required-eq-ok :
    (db : Database) (user id : ℕ) (s : BookmarkSnapshot)
    → required_snapshot db user id ≡ ok s
    → get_owned db user id ≡ some s
unfolding required_snapshot
required-eq-ok db user id s h = ground arith

seen_after {ℓ} :
    {R : Type ℓ} (store : Store) (db : Database) (user id : ℕ) (snapshot : BookmarkSnapshot)
    (c : Commit R)
    → Sealed store db user id snapshot.created_at c
    → required_snapshot db user id ≡ ok snapshot
    → Prepared store user c
seen_after store db user id snapshot c seals h = record {
  db = db;
  id = id;
  snapshot = snapshot;
  seals = seals;
  seen = inr (rw (seals.same_db, seals.same_bookmark) (required-eq-ok db user id snapshot h));
}

seen_before {ℓ} :
    {R : Type ℓ} (store : Store) (db : Database) (user id : ℕ) (snapshot : BookmarkSnapshot)
    (c : Commit R)
    → Sealed store db user id snapshot.created_at c
    → required_snapshot store.db user id ≡ ok snapshot
    → Prepared store user c
seen_before store db user id snapshot c seals h = record {
  db = db;
  id = id;
  snapshot = snapshot;
  seals = seals;
  seen = inl (rw seals.same_bookmark (required-eq-ok store.db user id snapshot h));
}

create-Prepared :
    (store : Store) (user : ℕ) (request : BookmarkCreate) (now : DateTime) (correlation : ℕ)
    (c : Commit BookmarkPublic)
    → create_in store user request now correlation ≡ ok c
    → Prepared store user c
unfolding create_in
create-Prepared store user request now correlation c h =
    let (at, a, h1) = >>=-eq-ok (normalize_utc now) _ h in
    let h2 = >>-eq-ok (require _ not_found_error) _ h1 in
    let (snapshot, s, h3) = >>=-eq-ok (required_snapshot _ user _) _ h2 in
    seen_after store _ user _ snapshot c
      (sealed-eq-ok store _ user _ snapshot.created_at _ _ at correlation _ c h3) s

patch-Prepared :
    (store : Store) (user id : ℕ) (current : BookmarkSnapshot) (target : MaterialPatch)
    (now : DateTime) (correlation : ℕ) (c : Commit BookmarkPublic)
    → required_snapshot store.db user id ≡ ok current
    → patch_in store user id current target now correlation ≡ ok c
    → Prepared store user c
unfolding patch_in
patch-Prepared store user id current target now correlation c found h =
    let (at, a, h1) = >>=-eq-ok (next_updated_at (utc current.updated_at) now) _ h in
    let h2 = >>-eq-ok (require _ not_found_error) _ h1 in
    let h3 = >>-eq-ok (require _ not_found_error) _ h2 in
    let (snapshot, s, h4) = >>=-eq-ok (required_snapshot _ user id) _ h3 in
    seen_before store _ user id current c
      (sealed-eq-ok store _ user id current.created_at _ _ at correlation _ c h4) found

delete-Prepared :
    (store : Store) (user id : ℕ) (now : DateTime) (correlation : ℕ) (c : Commit (Unit {0}))
    → delete_in store user id now correlation ≡ ok c
    → Prepared store user c
unfolding delete_in
delete-Prepared store user id now correlation c h =
    let (current, s, h1) = >>=-eq-ok (required_snapshot store.db user id) _ h in
    let (at, a, h2) = >>=-eq-ok (normalize_utc now) _ h1 in
    let h3 = >>-eq-ok (require _ not_found_error) _ h2 in
    seen_before store _ user id current c
      (sealed-eq-ok store _ user id current.created_at _ _ at correlation _ c h3) s

-- The three requests, and the error or success of each.
pub data Request : Type 0 where
  create_request : BookmarkCreate → Request
  patch_request : (bookmark_id : ℕ) → BookmarkPatchValues → Request
  delete_request : (bookmark_id : ℕ) → Request

abbrev error_of {ℓ} : {R : Type ℓ} → Result R × World → Option Error × World
error_of (ok r, w) = (none, w)
error_of (raise e, w) = (some e, w)

abbrev pub respond :
    World
    → (user : ℕ) → Request
    → (now : DateTime) → (correlation : ℕ) → (commit : Result (Unit {0})) → Option Error × World
respond w user (create_request values) now correlation commit =
    error_of (create_bookmark w user values now correlation commit)
respond w user (patch_request id values) now correlation commit =
    error_of (patch_bookmark w user id values now correlation commit)
respond w user (delete_request id) now correlation commit =
    error_of (delete_bookmark w user id now correlation commit)

-- A PATCH that changes nothing.
abbrev Immaterial : World → ℕ → Request → Type 0
Immaterial w user (create_request values) = ⊥
Immaterial w user (patch_request id values) =
    (current : BookmarkSnapshot) × (required_snapshot w.store.db user id ≡ ok current)
    × (is_material (classify_patch current values) ≡ false)
Immaterial w user (delete_request id) = ⊥

abbrev pub Handled : World → ℕ → Request → Option Error × World → Type 0
Handled w user request (some e, after) = after ≡ w
Handled w user request (none, after) =
    (Immaterial w user request × (after ≡ w)) ⊎ Committed w user after

finish-Handled {ℓ} :
    {R : Type ℓ} (w : World) (user : ℕ) (request : Request) (commit : Result (Unit {0}))
    (m : Result (Commit R))
    → ((c : Commit R) → m ≡ ok c → Prepared w.store user c)
    → Handled w user request (error_of (finish w commit m))
unfolding finish
finish-Handled w user request commit (raise e) h = refl
finish-Handled w user request (raise e) (ok c) h = refl
finish-Handled w user request (ok done) (ok c) h = inr (Prepared-Committed w user c (h c refl))

patch-Handled :
    (w : World) (user id : ℕ) (values : BookmarkPatchValues) (now : DateTime) (correlation : ℕ)
    (commit : Result (Unit {0})) (found : Result BookmarkSnapshot)
    → required_snapshot w.store.db user id ≡ found
    → Handled w user
        (patch_request id values)
        (error_of (patch_found w user id found values now correlation commit))
unfolding patch_found
patch-Handled w user id values now correlation commit (raise e) h = refl
patch-Handled w user id values now correlation commit (ok current) h =
    elim (Bool-cases (is_material (classify_patch current values))) [
      | inl m ↦ rw m (
          finish-Handled w user (patch_request id values) commit
            (patch_in w.store user id current (classify_patch current values) now correlation)
            (λ c q.
              patch-Prepared w.store user id current (classify_patch current values) now correlation
                c h q))
      | inr m ↦ rw m (inl ((current, h, m), refl))
    ]

-- All or nothing. A request that fails, for whatever reason, a commit that
-- fails included, leaves the bookmarks, the dirty markers
-- and the publisher as they were. One that succeeds leaves a dirty marker for the week in which its
-- bookmark was created, pending for both consumers and a generation further than before, no other
-- marker changed, and one event published for that user and week; only a PATCH that changes no field
-- succeeds and leaves everything as it was.
pub respond-Handled :
    (w : World) (user : ℕ) (request : Request) (now : DateTime) (correlation : ℕ)
    (commit : Result (Unit {0}))
    → Handled w user request (respond w user request now correlation commit)
unfolding create_bookmark patch_bookmark delete_bookmark
respond-Handled w user (create_request values) now correlation commit =
    finish-Handled w user (create_request values) commit
      (create_in w.store user values now correlation)
      (λ c q. create-Prepared w.store user values now correlation c q)
respond-Handled w user (patch_request id values) now correlation commit =
    patch-Handled w user id values now correlation commit (required_snapshot w.store.db user id)
      refl
respond-Handled w user (delete_request id) now correlation commit =
    finish-Handled w user (delete_request id) commit (delete_in w.store user id now correlation)
      (λ c q. delete-Prepared w.store user id now correlation c q)
