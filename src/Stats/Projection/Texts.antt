-- ===== src/Stats/Projection/Texts.antt =====
-- What the validators say of a text's length.
use backend_exercise.Prelude.{◌≡◌, not, true, ok, arith, eqb}
use Prim.Native.String.{String, [], ◌∷◌, count}
use Prim.Native.String.count
use backend_exercise.Stats.Projection.{valid_version, is_blank}

pub valid_version-nonempty : (s : String) → valid_version s ≡ ok tt → not (eqb (count s) 0) ≡ true
unfolding valid_version is_blank
valid_version-nonempty [] h = absurd (ground arith)
valid_version-nonempty (c ∷ s) h = ground (arith, count.cons c s)
