-- ===== src/Bookmarks/Service/Ownership.antt =====
-- A bookmark of another user is as good as none.
use backend_exercise.Prelude.{
  ℕ, ◌≡◌, ◌≢◌, refl, ap, none, some, List, [], ◌∷◌, Result, raise, not_found_error, All, keep, eqb,
  false, ◌&&◌, arith,
}
use backend_exercise.Clock.{DateTime}
use backend_exercise.Bookmarks.Models.{Database, Bookmark}
use backend_exercise.Bookmarks.Policy.{BookmarkPatchValues}
use backend_exercise.Bookmarks.Repository.{get_owned, one_or_none}
use backend_exercise.Bookmarks.Service.{
  World, required, required_snapshot, delete_in, finish, patch_found, patch_bookmark,
  delete_bookmark,
}
use backend_exercise.Bookmarks.Service.Outcomes.{respond, patch_request, delete_request}

-- No stored bookmark has this identifier and this owner.
abbrev pub NotOwned : (user id : ℕ) → List Bookmark → Type 0
NotOwned user id bookmarks = All (λ b. b.id ≡ id → b.user_id ≢ user) bookmarks

other :
    (user id : ℕ) (b : Bookmark)
    → (b.id ≡ id → b.user_id ≢ user)
    → (eqb b.id id && eqb b.user_id user) ≡ false
other user id b h = ground arith

keep-NotOwned :
    (user id : ℕ) (l : List Bookmark)
    → NotOwned user id l
    → keep (λ b. eqb b.id id && eqb b.user_id user) l ≡ []
keep-NotOwned user id [] h = refl
keep-NotOwned user id (b ∷ l) h = rw (other user id b h.0) (keep-NotOwned user id l h.1)

get_owned-none :
    (db : Database) (user id : ℕ) → NotOwned user id db.bookmarks → get_owned db user id ≡ none
unfolding get_owned
get_owned-none db user id h = ap (one_or_none db user) (keep-NotOwned user id db.bookmarks h)

required-none :
    (db : Database) (user id : ℕ)
    → get_owned db user id ≡ none
    → required_snapshot db user id ≡ raise not_found_error
unfolding required_snapshot
required-none db user id h = ap required h

-- Where no stored bookmark has both the identifier and the user as its owner, be it that the
-- bookmark does not exist or that it is another user's, a PATCH and a deletion fail with the same
-- error, whatever the commit would have done, and change nothing.
pub respond-NotOwned :
    (w : World) (user id : ℕ) (values : BookmarkPatchValues) (now : DateTime) (correlation : ℕ)
    (commit : Result (Unit {0}))
    → NotOwned user id w.store.db.bookmarks
    → (respond w user (patch_request id values) now correlation commit ≡ (some not_found_error, w))
      × (respond w user (delete_request id) now correlation commit ≡ (some not_found_error, w))
unfolding patch_bookmark patch_found delete_bookmark delete_in finish
respond-NotOwned w user id values now correlation commit h =
    let absent = required-none w.store.db user id (get_owned-none w.store.db user id h) in
    (rw absent refl, rw absent refl)
