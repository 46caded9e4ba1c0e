-- ===== src/Prelude/Outcome.antt =====
-- What a handler answers together with the database that it leaves: a condition for going on, and
-- one for answering. One rule for each step.
use mathlib.Core.Path.{◌≡◌, refl}
use mathlib.Core.Bool.{Bool, true, false}
use mathlib.Core.Option.{Option, none, some}
use zagforge_mvp.Prelude.Tests.{if◌then◌else◌}
use zagforge_mvp.Prelude.Flow.{
  Flow, go, answer, Act, ◌>>=◌, ◌>>◌, pure, reply, require, transaction, rolled_back, bound_to,
  finished, stop_if, stop_unless, get, modify, run,
}

module _ {D R A : Type 0} where
  abbrev pub Meets : (A → D → Type 0) → (R → D → Type 0) → Flow R A × D → Type 0
  Meets N E (go a, d) = N a d
  Meets N E (answer r, d) = E r d

  -- from `d` the step goes on under `N` or answers under `E`
  pub record Ensures (N : A → D → Type 0) (E : R → D → Type 0) (m : Act D R A) (d : D)
      : Type 0 where
    pub at : Meets N E (m d)

module _ {D R A : Type 0} {N : A → D → Type 0} {E : R → D → Type 0} where
  pub Ensures-pure : (a : A) (d : D) → N a d → Ensures N E (pure a) d
  unfolding pure
  Ensures-pure a d h = record { at = h }

  pub Ensures-reply : (r : R) (d : D) → E r d → Ensures N E (reply r) d
  unfolding reply
  Ensures-reply r d h = record { at = h }

  pub Ensures-stop_if :
      (b : Bool) (r : R) (m : Act D R A) (d : D)
      → (b ≡ true → E r d)
      → (b ≡ false → Ensures N E m d)
      → Ensures N E (stop_if b r >> m) d
  unfolding ◌>>=◌
  Ensures-stop_if true r m d h k = record { at = h refl }
  Ensures-stop_if false r m d h k = record { at = (k refl).at }

  pub Ensures-stop_unless :
      (b : Bool) (r : R) (m : Act D R A) (d : D)
      → (b ≡ false → E r d)
      → (b ≡ true → Ensures N E m d)
      → Ensures N E (stop_unless b r >> m) d
  unfolding ◌>>=◌
  Ensures-stop_unless true r m d h k = record { at = (k refl).at }
  Ensures-stop_unless false r m d h k = record { at = h refl }

  pub Ensures-get : (f : D → Act D R A) (d : D) → Ensures N E (f d) d → Ensures N E (get >>= f) d
  unfolding ◌>>=◌
  Ensures-get f d h = record { at = h.at }

  pub Ensures-modify :
      (g : D → D) (m : Act D R A) (d : D) → Ensures N E m (g d) → Ensures N E (modify g >> m) d
  unfolding ◌>>=◌
  Ensures-modify g m d h = record { at = h.at }

  pub Ensures-require_last :
      (o : Option A) (r : R) (d : D)
      → (o ≡ none → E r d)
      → ((a : A) → o ≡ some a → N a d)
      → Ensures N E (require o r) d
  unfolding require
  Ensures-require_last none r d h k = record { at = h refl }
  Ensures-require_last (some a) r d h k = record { at = k a refl }

  pub Ensures-if :
      (b : Bool) (m n : Act D R A) (d : D)
      → (b ≡ true → Ensures N E m d)
      → (b ≡ false → Ensures N E n d)
      → Ensures N E (if b then m else n) d
  Ensures-if true m n d h k = h refl
  Ensures-if false m n d h k = k refl

  -- an answer inside a transaction is given over the database before it
  pub Ensures-transaction :
      (m : Act D R A) (d : D) → Ensures N (λ r _. E r d) m d → Ensures N E (transaction m) d
  unfolding transaction
  Ensures-transaction m d k = record { at = kept (m d) k.at }
    where
      kept : (o : Flow R A × D) → Meets N (λ r _. E r d) o → Meets N E (rolled_back d o)
      kept (go a, d') k = k
      kept (answer r, d') k = k

module _ {D R A B : Type 0} {N : A → D → Type 0} {E : R → D → Type 0} where
  pub Ensures-require :
      (o : Option B) (r : R) (f : B → Act D R A) (d : D)
      → (o ≡ none → E r d)
      → ((b : B) → o ≡ some b → Ensures N E (f b) d)
      → Ensures N E (require o r >>= f) d
  unfolding ◌>>=◌
  Ensures-require none r f d h k = record { at = h refl }
  Ensures-require (some b) r f d h k = record { at = (k b refl).at }

  pub Ensures-bind :
      (M : B → D → Type 0) (m : Act D R B) (f : B → Act D R A) (d : D)
      → Ensures M E m d
      → ((b : B) (d' : D) → M b d' → Ensures N E (f b) d')
      → Ensures N E (m >>= f) d
  unfolding ◌>>=◌
  Ensures-bind M m f d h k = record { at = bound (m d) h.at }
    where
      bound : (o : Flow R B × D) → Meets M E o → Meets N E (bound_to f o)
      bound (go b, d') h = (k b d' h).at
      bound (answer r, d') h = h

module _ {D R A B : Type 0} {N : A → D → Type 0} {E : R → D → Type 0} where
  -- a step that writes nothing when it goes on
  pub Ensures-check :
      (P : B → Type 0) (m : Act D R B) (f : B → Act D R A) (d : D)
      → Ensures (λ b d'. (d' ≡ d) × P b) E m d
      → ((b : B) → P b → Ensures N E (f b) d)
      → Ensures N E (m >>= f) d
  Ensures-check P m f d h k =
      Ensures-bind (λ b d'. (d' ≡ d) × P b) m f d h (λ b d' (same, p). rw same (k b p))

module _ {D R : Type 0} {E : R → D → Type 0} where
  pub run_meets : (m : Act D R R) (d : D) → Ensures E E m d → E (run m d).0 (run m d).1
  unfolding run
  run_meets m d h = kept (m d) h.at
    where
      kept : (o : Flow R R × D) → Meets E E o → E (finished o).0 (finished o).1
      kept (go r, d') h = h
      kept (answer r, d') h = h

module _ {D R : Type 0} {N : Unit {0} → D → Type 0} {E : R → D → Type 0} where
  pub Ensures-modify_last : (g : D → D) (d : D) → N tt (g d) → Ensures N E (modify g) d
  unfolding modify
  Ensures-modify_last g d h = record { at = h }

  pub Ensures-stop_if_last :
      (b : Bool) (r : R) (d : D)
      → (b ≡ true → E r d)
      → (b ≡ false → N tt d)
      → Ensures N E (stop_if b r) d
  unfolding stop_if
  Ensures-stop_if_last true r d h k = record { at = h refl }
  Ensures-stop_if_last false r d h k = record { at = k refl }

  pub Ensures-stop_unless_last :
      (b : Bool) (r : R) (d : D)
      → (b ≡ false → E r d)
      → (b ≡ true → N tt d)
      → Ensures N E (stop_unless b r) d
  unfolding stop_unless
  Ensures-stop_unless_last true r d h k = record { at = k refl }
  Ensures-stop_unless_last false r d h k = record { at = h refl }
