-- ===== src/Stats/Baseline/Completes.antt =====
-- The baseline covers every week in which a user has a bookmark.
use backend_exercise.Prelude.{ℕ, ◌≡◌, Bool, true, Option, List, String, ok, All, nat_eq}
use backend_exercise.Dict
use backend_exercise.Dict.{Dict}
use backend_exercise.Weekly.{monday}
use backend_exercise.Stats.Projection.Candidates.{is_after}
use backend_exercise.Stats.Processor.{Session, Config}
use backend_exercise.Stats.Baseline.Persist.{Covered}
use backend_exercise.Stats.Baseline.Pages.{candidate_at}
use backend_exercise.Stats.Baseline.Terminates.{run_steps, IsActive}

-- The week's own key tells whether it comes after the checkpoint.
abbrev pub key_after : Option (ℕ × ℕ) → ℕ × ℕ → Bool
key_after c k = is_after (candidate_at c) (k, 0)

pub record IsComplete (config : Config) (version : String) (n : ℕ) (s : Session)
    (c : Option (ℕ × ℕ)) (times : List ℕ) : Type 0 where
  pub after : Session
  pub ran : run_steps config n s times ≡ (ok true, after)
  pub is_active : IsActive version s after c
  pub covered : All (λ b. Covered after b.user_id (monday b.created_at)) s.bookmarks.bookmarks
