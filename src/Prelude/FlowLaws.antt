-- ===== src/Prelude/FlowLaws.antt =====
-- A property of the database through the steps of a handler: one rule for each step.
use mathlib.Core.Path.{◌≡◌, refl}
use mathlib.Core.Bool.{Bool, true, false}
use mathlib.Core.Option.{Option, none, some}
use zagforge_mvp.Prelude.Tests.{if◌then◌else◌}
use zagforge_mvp.Prelude.Flow.{
  Flow, go, answer, Act, ◌>>=◌, ◌>>◌, pure, require, transaction, rolled_back, bound_to, finished,
  stop_if, stop_unless, get, modify, run,
}

-- from the database `d` the step leaves one with `P`, whether it goes on or answers
pub record Leaves {D R A : Type 0} (P : D → Type 0) (m : Act D R A) (d : D) : Type 0 where
  pub at : P (m d).1

module _ {D R A : Type 0} {P : D → Type 0} where
  pub Leaves-pure : (a : A) (d : D) → P d → Leaves {R = R} P (pure a) d
  unfolding pure
  Leaves-pure a d h = record { at = h }

  pub Leaves-stop_if :
      (b : Bool) (r : R) (m : Act D R A) (d : D)
      → P d
      → (b ≡ false → Leaves P m d)
      → Leaves P (stop_if b r >> m) d
  unfolding ◌>>=◌
  Leaves-stop_if true r m d h k = record { at = h }
  Leaves-stop_if false r m d h k = record { at = (k refl).at }

  pub Leaves-stop_unless :
      (b : Bool) (r : R) (m : Act D R A) (d : D)
      → P d
      → (b ≡ true → Leaves P m d)
      → Leaves P (stop_unless b r >> m) d
  unfolding ◌>>=◌
  Leaves-stop_unless true r m d h k = record { at = (k refl).at }
  Leaves-stop_unless false r m d h k = record { at = h }

  pub Leaves-require_last : (o : Option A) (r : R) (d : D) → P d → Leaves P (require o r) d
  unfolding require
  Leaves-require_last none r d h = record { at = h }
  Leaves-require_last (some a) r d h = record { at = h }

  pub Leaves-get : (f : D → Act D R A) (d : D) → Leaves P (f d) d → Leaves P (get >>= f) d
  unfolding ◌>>=◌
  Leaves-get f d h = record { at = h.at }

  pub Leaves-modify :
      (g : D → D) (m : Act D R A) (d : D) → Leaves P m (g d) → Leaves P (modify g >> m) d
  unfolding ◌>>=◌
  Leaves-modify g m d h = record { at = h.at }

  pub Leaves-transaction : (m : Act D R A) (d : D) → P d → Leaves P m d → Leaves P (transaction m) d
  unfolding transaction
  Leaves-transaction m d h k = record { at = kept (m d) k.at }
    where
      kept : (o : Flow R A × D) → P o.1 → P (rolled_back d o).1
      kept (go a, d') k = k
      kept (answer r, d') k = h

  pub Leaves-if :
      (b : Bool) (m n : Act D R A) (d : D)
      → (b ≡ true → Leaves P m d)
      → (b ≡ false → Leaves P n d)
      → Leaves P (if b then m else n) d
  Leaves-if true m n d h k = h refl
  Leaves-if false m n d h k = k refl

module _ {D R A B : Type 0} {P : D → Type 0} where
  pub Leaves-require :
      (o : Option B) (r : R) (f : B → Act D R A) (d : D)
      → P d
      → ((b : B) → o ≡ some b → Leaves P (f b) d)
      → Leaves P (require o r >>= f) d
  unfolding ◌>>=◌
  Leaves-require none r f d h k = record { at = h }
  Leaves-require (some b) r f d h k = record { at = (k b refl).at }

  -- the rest of the handler runs from the database and the value that the first part left
  pub Leaves-bind :
      (m : Act D R A) (f : A → Act D R B) (d : D)
      → Leaves P m d
      → ((a : A) (d' : D) → m d ≡ (go a, d') → P d' → Leaves P (f a) d')
      → Leaves P (m >>= f) d
  unfolding ◌>>=◌
  Leaves-bind m f d h k = record { at = bound (m d) refl h.at }
    where
      bound : (o : Flow R A × D) → m d ≡ o → P o.1 → P (bound_to f o).1
      bound (go a, d') e h = (k a d' e h).at
      bound (answer r, d') e h = h

module _ {D R : Type 0} {P : D → Type 0} where
  pub at-run : (m : Act D R R) (d : D) → Leaves P m d → P (run m d).1
  unfolding run
  at-run m d h = kept (m d) h.at
    where
      kept : (o : Flow R R × D) → P o.1 → P (finished o).1
      kept (go r, d') h = h
      kept (answer r, d') h = h

module _ {D R : Type 0} {P : D → Type 0} where
  pub Leaves-modify_last : (g : D → D) (d : D) → P (g d) → Leaves {R = R} P (modify g) d
  unfolding modify
  Leaves-modify_last g d h = record { at = h }

  pub Leaves-stop_unless_last : (b : Bool) (r : R) (d : D) → P d → Leaves P (stop_unless b r) d
  unfolding stop_unless
  Leaves-stop_unless_last true r d h = record { at = h }
  Leaves-stop_unless_last false r d h = record { at = h }

-- for `search`, with the facts about the databases that the steps pass through
pub ruleset step_rules = (
  Leaves-pure, Leaves-stop_if, Leaves-stop_unless, Leaves-get, Leaves-modify, Leaves-require,
  Leaves-require_last, Leaves-modify_last, Leaves-stop_unless_last, Leaves-transaction, Leaves-if,
  Leaves-bind,
)
