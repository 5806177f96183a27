-- ===== src/Stats/Projection/Working/Rows.antt =====
-- A developing row is read back as it was written, and is deleted only if it has not changed.
use backend_exercise.Prelude.{
  ℕ, ◌≡◌, ◌∙◌, refl, sym, ap, Bool, false, Option, none, some, ok, arith, All, pair_eq, nat_eq,
  string_eq, ◌==◌, ◌>>◌, >>=-eq-ok, >>-eq-ok, ok-inj, if◌then◌else◌,
}
use backend_exercise.Dict
use backend_exercise.Weekly.{WeeklyWindow}
use backend_exercise.Stats.Dirty.{positive}
use backend_exercise.Stats.Dirty.Acknowledge.{beq_refl}
use backend_exercise.Stats.Projection.{
  WorkingProjectionRecord, canonical, valid_payload, validate_working, read_working,
}
use backend_exercise.Stats.Projection.Working.{
  WorkingTable, key_of, read_some, get_working, replace_working, delete_if_same, delete_working,
}

-- Each row stands under its own key.
abbrev pub IsKeyed : WorkingTable → Type 0
IsKeyed table = All (λ e. key_of e.1 ≡ e.0) table

read_working-same : (r s : WorkingProjectionRecord) → read_working r ≡ ok s → s ≡ r
unfolding read_working
read_working-same r s h = sym (
    ok-inj r s (
      >>-eq-ok (validate_working r) (ok r) (
        >>-eq-ok (valid_payload r.payload) (validate_working r >> ok r) (
          >>-eq-ok (canonical r.window) (valid_payload r.payload >> (validate_working r >> ok r))
            h))))

read_some-same : (found o : Option WorkingProjectionRecord) → read_some found ≡ ok o → found ≡ o
read_some-same none o h = ok-inj none o h
read_some-same (some row) o h =
    let (r, e, q) = >>=-eq-ok (read_working row) (λ r. ok (some r)) h in
    ap (λ x. some x) (sym (read_working-same row r e)) ∙ ok-inj (some r) o q

pub get_working-found :
    (table : WorkingTable) (user_id : ℕ) (window : WeeklyWindow)
    (o : Option WorkingProjectionRecord)
    → get_working table user_id window ≡ ok o
    → Dict.get (user_id, window.start) table ≡ o
unfolding get_working
get_working-found table u w o h = read_some-same (Dict.get (u, w.start) table) o (
    >>-eq-ok (canonical w) (read_some (Dict.get (u, w.start) table))
      (>>-eq-ok (positive u) (canonical w >> read_some (Dict.get (u, w.start) table)) h))

pub replace_working-put :
    (table : WorkingTable) (r : WorkingProjectionRecord) (after : WorkingTable)
    → replace_working table r ≡ ok after
    → (validate_working r ≡ ok tt) × (after ≡ Dict.put (key_of r) r table)
unfolding replace_working
replace_working-put table r after h = ground arith

pub replace_working-IsKeyed :
    (table : WorkingTable) (r : WorkingProjectionRecord) (after : WorkingTable)
    → IsKeyed table
    → replace_working table r ≡ ok after
    → IsKeyed after
replace_working-IsKeyed table r after h e =
    rw (replace_working-put table r after e).1
      (Dict.All-put_entry (λ x. key_of x.1 ≡ x.0) (key_of r) r table refl h)

pub read_valid : (r : WorkingProjectionRecord) → validate_working r ≡ ok tt → read_working r ≡ ok r
unfolding read_working validate_working
read_valid r h = ground arith

pub valid_key :
    (r : WorkingProjectionRecord)
    → validate_working r ≡ ok tt
    → (positive r.user_id ≡ ok tt) × (canonical r.window ≡ ok tt)
unfolding validate_working
valid_key r h = (ground arith, ground arith)

-- A row that is written is read back as it is, under its user and week, and every other row of the
-- table is read as before.
pub get_working-replace_working :
    (table : WorkingTable) (r : WorkingProjectionRecord) (after : WorkingTable)
    → replace_working table r ≡ ok after
    → (get_working after r.user_id r.window ≡ ok (some r))
      × ((user_id : ℕ) (window : WeeklyWindow)
          → (key_of r == (user_id, window.start)) ≡ false
          → get_working after user_id window ≡ get_working table user_id window)
unfolding get_working
get_working-replace_working table r after h =
    let (valid, put) = replace_working-put table r after h in
    let (user, week) = valid_key r valid in
    let here : Dict.get (key_of r) after ≡ some r =
      rw (put, Dict.get-put (key_of r) (key_of r) r table, beq_refl (key_of r)) refl in
    (
      rw (user, week, here) (rw (read_valid r valid) refl),
      λ u w n. rw put (rw (Dict.get-put (key_of r) (u, w.start) r table) (rw n refl)),
    )

delete_if_same-deleted :
    (table : WorkingTable) (r : WorkingProjectionRecord) (o : Option WorkingProjectionRecord)
    (found : Bool) (after : WorkingTable)
    → delete_if_same table r o ≡ (found, after)
    → after ≡ (if found then Dict.delete (key_of r) table else table)
delete_if_same-deleted table r none found after h = ground arith
delete_if_same-deleted table r (some row) found after h = ground arith

pub delete_working-deleted :
    (table : WorkingTable) (r : WorkingProjectionRecord) (found : Bool) (after : WorkingTable)
    → delete_working table r ≡ ok (found, after)
    → after ≡ (if found then Dict.delete (key_of r) table else table)
unfolding delete_working
delete_working-deleted table r found after h =
    delete_if_same-deleted table r (Dict.get (key_of r) table) found after (
      ok-inj _ _
        (>>-eq-ok (validate_working r) (ok (delete_if_same table r (Dict.get (key_of r) table))) h))
