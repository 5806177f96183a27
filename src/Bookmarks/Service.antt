-- ===== src/Bookmarks/Service.antt =====
-- `BookmarkService` of app/bookmarks/service.py: the requests that write. A request works on a copy
-- of the store, which its commit puts in the place of the store and a rollback forgets; the event is
-- published after the commit.
pub mod Seals
pub mod Outcomes
pub mod Ownership
mod Examples
use backend_exercise.Prelude.{
  ℕ, ◌&&◌, ◌||◌, not, Bool, true, false, Option, none, some, List, String, Result, ok, raise,
  not_found_error, require, if◌then◌else◌, ◌>>=◌, ◌>>◌,
}
use backend_exercise.Clock.{DateTime, utc, normalize_utc}
use backend_exercise.Weekly.{utc_monday}
use backend_exercise.Events.{
  BookmarkMutationKind, created, updated, tags_updated, deleted, BookmarkStatsInvalidated,
  invalidated,
}
use backend_exercise.Stats.Publisher.{StatsInvalidationPublisher, publish}
use backend_exercise.Stats.Dirty.{Table, DirtyReason, create, update, delete, mark_dirty}
use backend_exercise.Bookmarks.Models.{Database, BookmarkSnapshot}
use backend_exercise.Bookmarks.Policy.{
  BookmarkPatchValues, MaterialPatch, is_material, classify_patch, next_updated_at,
}
use backend_exercise.Bookmarks.Repository.{get_owned}
use backend_exercise.Bookmarks.Listing.{BookmarkPublic, public_bookmark}
use backend_exercise.Bookmarks.Writes.{
  BookmarkValues, next_bookmark_id, add_bookmark, resolve_tag_ids, replace_tag_links_owned,
  update_owned, delete_owned,
}

-- What a transaction works on: the tables of the bookmarks and that of the dirty markers.
pub record Store : Type 0 where
  pub db : Database
  pub dirty : Table

pub record World : Type 0 where
  pub store : Store
  pub publisher : StatsInvalidationPublisher

pub record BookmarkCreate : Type 0 where
  pub values : BookmarkValues
  pub tags : List String

-- `_required_snapshot`
abbrev pub required : Option BookmarkSnapshot → Result BookmarkSnapshot
required none = raise not_found_error
required (some snapshot) = ok snapshot

unfoldable pub required_snapshot : Database → (user_id bookmark_id : ℕ) → Result BookmarkSnapshot
required_snapshot db user_id bookmark_id = required (get_owned db user_id bookmark_id)

-- `_event`
unfoldable pub event_of :
    (user_id bookmark_id window_value : ℕ)
    → BookmarkMutationKind
    → (occurred_at correlation_id : ℕ) → Result BookmarkStatsInvalidated
event_of user_id bookmark_id window_value kind occurred_at correlation_id = do
  window_start ← utc_monday (utc window_value)
  occurred ← normalize_utc (utc occurred_at)
  invalidated (record {
    user_id = user_id;
    window_start = utc window_start;
    mutation_kind = kind;
    bookmark_id = bookmark_id;
    occurred_at = utc occurred;
    correlation_id = correlation_id;
  })

-- What a transaction is to commit: the store, the event, and the result of the request.
pub record Commit {ℓ} (R : Type ℓ) : Type ℓ where
  pub store : Store
  pub event : BookmarkStatsInvalidated
  pub result : R

-- The end of each transaction: the event for the week of `window_value` and its dirty marker.
unfoldable pub sealed {ℓ} :
    {R : Type ℓ}
    → Store
    → Database
    → (user_id bookmark_id window_value : ℕ) → BookmarkMutationKind
    → DirtyReason
    → (at correlation_id : ℕ) → R
    → Result (Commit R)
sealed store db user_id bookmark_id window_value kind reason at correlation_id result = do
  event ← event_of user_id bookmark_id window_value kind at correlation_id
  dirty ← mark_dirty store.dirty user_id (utc window_value) reason (utc at)
  ok (record { store = record { db = db; dirty = dirty }; event = event; result = result })

-- `create`
unfoldable pub create_in :
    Store
    → (user_id : ℕ) → BookmarkCreate
    → (now : DateTime) → (correlation_id : ℕ) → Result (Commit BookmarkPublic)
create_in store user_id request now correlation_id = do
  created_at ← normalize_utc now
  let bookmark_id = next_bookmark_id store.db
  let added = add_bookmark store.db user_id request.values created_at
  let resolved = resolve_tag_ids added.tags request.tags
  let linked =
      replace_tag_links_owned (record added { tags = resolved.1 }) user_id bookmark_id resolved.0
  require linked.0 not_found_error
  snapshot ← required_snapshot linked.1 user_id bookmark_id
  sealed store linked.1 user_id bookmark_id snapshot.created_at created create created_at
      correlation_id (public_bookmark snapshot)

-- `patch`, from the material difference on
abbrev relinked : Database → (user_id bookmark_id : ℕ) → MaterialPatch → Bool × Database
relinked db user_id bookmark_id target =
    if target.tags_changed
    then (let resolved = resolve_tag_ids db.tags target.tags in
        replace_tag_links_owned (record db { tags = resolved.1 }) user_id bookmark_id resolved.0)
    else (true, db)

abbrev patch_kind : MaterialPatch → BookmarkMutationKind
patch_kind target =
    if target.tags_changed
      && not (target.url_changed || (target.title_changed || target.description_changed))
    then tags_updated
    else updated

unfoldable pub patch_in :
    Store
    → (user_id bookmark_id : ℕ) → BookmarkSnapshot
    → MaterialPatch
    → (now : DateTime) → (correlation_id : ℕ) → Result (Commit BookmarkPublic)
patch_in store user_id bookmark_id current target now correlation_id = do
  updated_at ← next_updated_at (utc current.updated_at) now
  let changed = update_owned store.db user_id bookmark_id target updated_at
  require changed.0 not_found_error
  let linked = relinked changed.1 user_id bookmark_id target
  require linked.0 not_found_error
  snapshot ← required_snapshot linked.1 user_id bookmark_id
  sealed store linked.1 user_id bookmark_id current.created_at (patch_kind target) update updated_at
      correlation_id (public_bookmark snapshot)

-- `delete`
unfoldable pub delete_in :
    Store
    → (user_id bookmark_id : ℕ) → (now : DateTime) → (correlation_id : ℕ)
    → Result (Commit (Unit {0}))
delete_in store user_id bookmark_id now correlation_id = do
  current ← required_snapshot store.db user_id bookmark_id
  occurred_at ← normalize_utc now
  let removed = delete_owned store.db user_id bookmark_id
  require removed.0 not_found_error
  sealed store removed.1 user_id bookmark_id current.created_at deleted delete occurred_at
      correlation_id tt

-- `self._session.commit()` and then `self._publisher.publish(event)`, or the rollback and the error
-- again. `commit` is what the commit of the session does: it returns, or raises an error. (A flush that
-- raises ends the transaction likewise, before the checks that follow it, and is not told apart.)
unfoldable pub finish {ℓ} :
    {R : Type ℓ} → World → (commit : Result (Unit {0})) → Result (Commit R) → Result R × World
finish world commit (raise e) = (raise e, world)
finish world (raise e) (ok c) = (raise e, world)
finish world (ok done) (ok c) =
    (ok c.result, record { store = c.store; publisher = (publish world.publisher c.event).1 })

unfoldable pub create_bookmark :
    World
    → (user_id : ℕ) → BookmarkCreate
    → (now : DateTime) → (correlation_id : ℕ) → (commit : Result (Unit {0}))
    → Result BookmarkPublic × World
create_bookmark world user_id request now correlation_id commit =
    finish world commit (create_in world.store user_id request now correlation_id)

-- `patch` reads the bookmark before its transaction, and answers an immaterial request at once.
unfoldable pub patch_found :
    World
    → (user_id bookmark_id : ℕ) → Result BookmarkSnapshot
    → BookmarkPatchValues
    → (now : DateTime) → (correlation_id : ℕ) → (commit : Result (Unit {0}))
    → Result BookmarkPublic × World
patch_found world user_id bookmark_id (raise e) request now correlation_id commit = (raise e, world)
patch_found world user_id bookmark_id (ok current) request now correlation_id commit =
    let target = classify_patch current request in
    if is_material target
    then finish world commit
        (patch_in world.store user_id bookmark_id current target now correlation_id)
    else (ok (public_bookmark current), world)

unfoldable pub patch_bookmark :
    World
    → (user_id bookmark_id : ℕ) → BookmarkPatchValues
    → (now : DateTime) → (correlation_id : ℕ) → (commit : Result (Unit {0}))
    → Result BookmarkPublic × World
patch_bookmark world user_id bookmark_id request now correlation_id commit =
    patch_found world user_id bookmark_id (required_snapshot world.store.db user_id bookmark_id)
      request now correlation_id commit

unfoldable pub delete_bookmark :
    World
    → (user_id bookmark_id : ℕ) → (now : DateTime) → (correlation_id : ℕ)
    → (commit : Result (Unit {0})) → Result (Unit {0}) × World
delete_bookmark world user_id bookmark_id now correlation_id commit =
    finish world commit (delete_in world.store user_id bookmark_id now correlation_id)
