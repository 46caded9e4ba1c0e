-- ===== src/Prelude/Flow.antt =====
-- Handlers: a computation over the database that goes on with a value or answers early. What was
-- written before an early answer stays written; inside a transaction it is rolled back.
use mathlib.Core.Bool.{Bool, true, false}
use mathlib.Core.Option.{Option, none, some}

-- `go` carries on, `answer` is a `return` in the middle of the Go function
pub data Flow (R A : Type 0) : Type 0 where
  go : A → Flow R A
  answer : R → Flow R A

abbrev pub Act : Type 0 → Type 0 → Type 0 → Type 0
Act D R A = D → Flow R A × D

module _ {D R A : Type 0} where
  unfoldable pub pure : A → Act D R A
  pure a d = (go a, d)

  unfoldable pub reply : R → Act D R A
  reply r d = (answer r, d)

  -- `if x, ok := o; !ok { return r }`
  unfoldable pub require : Option A → R → Act D R A
  require none r d = (answer r, d)
  require (some a) r d = (go a, d)

  -- `tx := Begin(); defer tx.Rollback(); …; tx.Commit()`: an early answer drops the writes
  abbrev pub rolled_back : D → Flow R A × D → Flow R A × D
  rolled_back d (go a, d') = (go a, d')
  rolled_back d (answer r, d') = (answer r, d)

  unfoldable pub transaction : Act D R A → Act D R A
  transaction m d = rolled_back d (m d)

module _ {D R : Type 0} where
  unfoldable pub stop_if : Bool → R → Act D R (Unit {0})
  stop_if true r d = (answer r, d)
  stop_if false r d = (go tt, d)

  unfoldable pub stop_unless : Bool → R → Act D R (Unit {0})
  stop_unless true r d = (go tt, d)
  stop_unless false r d = (answer r, d)

  unfoldable pub get : Act D R D
  get d = (go d, d)

  unfoldable pub modify : (D → D) → Act D R (Unit {0})
  modify f d = (go tt, f d)

module _ {D R A B : Type 0} where
  abbrev pub bound_to : (A → Act D R B) → Flow R A × D → Flow R B × D
  bound_to f (go a, d) = f a d
  bound_to f (answer r, d) = (answer r, d)

  infixl 5 ◌>>=◌ ◌>>◌
  -- opening this opens the steps above too
  unfoldable pub ◌>>=◌ : Act D R A → (A → Act D R B) → Act D R B
  unfolding pure reply require transaction stop_if stop_unless get modify
  ◌>>=◌ m f d = bound_to f (m d)

  abbrev pub ◌>>◌ : Act D R A → Act D R B → Act D R B
  m >> n = m >>= λ _. n

module _ {D R : Type 0} where
  -- the reply and the database at the end of a handler
  abbrev pub finished : Flow R R × D → R × D
  finished (go r, d) = (r, d)
  finished (answer r, d) = (r, d)

  unfoldable pub run : Act D R R → D → R × D
  unfolding ◌>>=◌
  run m d = finished (m d)
