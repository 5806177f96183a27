-- ===== src/Bookmarks/Service/Seals.antt =====
-- What the end of a transaction has computed: its event and its dirty marker.
use backend_exercise.Prelude.{ℕ, ◌≡◌, sym, ◌∙◌, ap, ok, pair_eq, nat_eq, >>=-eq-ok, ok-inj}
use backend_exercise.Clock.{utc, normalize_utc}
use backend_exercise.Weekly.{utc_monday}
use backend_exercise.Dict
use backend_exercise.Events.{BookmarkMutationKind, BookmarkStatsInvalidated, invalidated-eq}
use backend_exercise.Stats.Dirty.{DirtyReason, marked_row, mark_dirty}
use backend_exercise.Stats.Dirty.Constraints.{mark_dirty-eq-ok}
use backend_exercise.Stats.Dirty.Marks.{Marked-window}
use backend_exercise.Bookmarks.Models.{Database}
use backend_exercise.Bookmarks.Service.{Store, Commit, event_of, sealed}

pub record Sealed {ℓ} {R : Type ℓ} (store : Store) (db : Database)
    (user bookmark_id window_value : ℕ) (c : Commit R) : Type 0 where
  pub window : ℕ
  pub week : utc_monday (utc window_value) ≡ ok window
  pub same_db : c.store.db ≡ db
  pub same_bookmark : c.event.bookmark_id ≡ bookmark_id
  pub same_user : c.event.user_id ≡ user
  pub same_week : c.event.window_start ≡ utc window
  pub reason : DirtyReason
  pub time : ℕ
  pub written :
      c.store.dirty
      ≡ Dict.put
          (user, window)
          (marked_row (Dict.get (user, window) store.dirty) reason time)
          store.dirty

pub event_of-eq-ok :
    (user id value : ℕ) (kind : BookmarkMutationKind) (at correlation : ℕ)
    (e : BookmarkStatsInvalidated)
    → event_of user id value kind at correlation ≡ ok e
    → (window : ℕ) × (utc_monday (utc value) ≡ ok window)
      × (e.user_id ≡ user)
      × (e.window_start ≡ utc window)
      × (e.bookmark_id ≡ id)
unfolding event_of
event_of-eq-ok user id value kind at correlation e h =
    let (window, w, h1) = >>=-eq-ok (utc_monday (utc value)) _ h in
    let (occurred, o, h2) = >>=-eq-ok (normalize_utc (utc at)) _ h1 in
    let same = invalidated-eq _ e h2 in
    (
      window,
      w,
      ap (λ (x : BookmarkStatsInvalidated). x.user_id) same,
      ap (λ (x : BookmarkStatsInvalidated). x.window_start) same,
      ap (λ (x : BookmarkStatsInvalidated). x.bookmark_id) same,
    )

pub sealed-eq-ok {ℓ} :
    {R : Type ℓ} (store : Store) (db : Database) (user id value : ℕ) (kind : BookmarkMutationKind)
    (reason : DirtyReason) (at correlation : ℕ) (r : R) (c : Commit R)
    → sealed store db user id value kind reason at correlation r ≡ ok c
    → Sealed store db user id value c
unfolding sealed
sealed-eq-ok {R} store db user id value kind reason at correlation r c h =
    let (event, e, h1) = >>=-eq-ok (event_of user id value kind at correlation) _ h in
    let (dirty, d, h2) = >>=-eq-ok (mark_dirty store.dirty user (utc value) reason (utc at)) _ h1 in
    let (window, w, same_user, same_week, same_bookmark) =
      event_of-eq-ok user id value kind at correlation event e in
    let m = mark_dirty-eq-ok store.dirty user (utc value) reason (utc at) dirty d in
    let same = ok-inj _ c h2 in
    record {
      window = window;
      week = w;
      same_db = sym (ap (λ (x : Commit R). x.store.db) same);
      same_bookmark = sym (ap (λ (x : Commit R). x.event.bookmark_id) same) ∙ same_bookmark;
      same_user = sym (ap (λ (x : Commit R). x.event.user_id) same) ∙ same_user;
      same_week = sym (ap (λ (x : Commit R). x.event.window_start) same) ∙ same_week;
      reason = reason;
      time = m.time;
      written =
          sym (ap (λ (x : Commit R). x.store.dirty) same)
          ∙ Marked-window store.dirty dirty user window (utc value) reason (utc at) m w;
    }
