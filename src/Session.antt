-- ===== src/Session.antt =====
-- A request handler: it reads and writes the database through one SQLAlchemy session, and it may
-- raise. What is not committed when the handler ends is lost with its session.
pub mod Keeps
pub mod Isolation
pub mod Frame
pub mod From
use project_g_one.Prelude.{
  ℕ, ◌+◌, String, Bool, true, false, Option, none, some, List, [], ◌∷◌, ◌++◌, if◌then◌else◌,
  find_first, where_true,
}
use project_g_one.Models.{AuditEvent}
use project_g_one.Models.Tables.{Kind, RowOf, Database, with_table, put_table}
use project_g_one.Models.Constraints.{insert_conflict, update_conflict, replace, remove}
use project_g_one.Outside.{Outside}

pub data Failure : Type 0 where
  -- HTTPException(status, detail)
  http : ℕ → String → Failure
  -- sqlalchemy.exc.IntegrityError
  integrity_error : Failure
  value_error : String → Failure
  type_error : String → Failure
  os_error : Failure

pub data Outcome {ℓ} (A : Type ℓ) : Type ℓ where
  returned : A → Outcome A
  raised : Failure → Outcome A

-- `working` is the database as the session sees it, `committed` as others see it; `reads` counts the
-- readings from outside, and `applied` holds the texts that `apply_config` wrote, the last one first.
pub record World : Type 0 where
  pub working : Database
  pub committed : Database
  pub reads : ℕ
  pub applied : List String

abbrev pub Handler {ℓ} : Type ℓ → Type ℓ
Handler A = World → Outcome A × World

module _ {ℓ} {A : Type ℓ} where
  unfoldable pub pure : A → Handler A
  pure a w = (returned a, w)

  unfoldable pub raise : Failure → Handler A
  raise e w = (raised e, w)

  unfoldable pub lift : Outcome A → Handler A
  lift r w = (r, w)

  unfoldable pub gets : (World → A) → Handler A
  gets f w = (returned (f w), w)

  abbrev pub or_raise : Failure → Option A → Outcome A
  or_raise e none = raised e
  or_raise e (some a) = returned a

module _ {ℓ κ} {A : Type ℓ} {B : Type κ} where
  abbrev pub continue : Outcome A → (A → Handler B) → World → Outcome B × World
  continue (returned a) f w = f a w
  continue (raised e) f w = (raised e, w)

  infixl 5 ◌>>=◌ ◌>>◌
  unfoldable pub ◌>>=◌ : Handler A → (A → Handler B) → Handler B
  unfolding pure raise lift gets
  ◌>>=◌ m f w = let (r, w') = m w in continue r f w'

  abbrev pub ◌>>◌ : Handler A → Handler B → Handler B
  m >> n = m >>= λ _. n

unfoldable pub raise_if : Bool → Failure → Handler (Unit {0})
raise_if b e w = (if b then raised e else returned tt, w)

-- `try: m  except IntegrityError: n`
abbrev pub recover {ℓ} : {A : Type ℓ} → Outcome A → Handler A → World → Outcome A × World
recover (raised integrity_error) n w = n w
recover r n w = (r, w)

unfoldable pub except_integrity {ℓ} : {A : Type ℓ} → Handler A → Handler A → Handler A
except_integrity m n w = let (r, w') = m w in recover r n w'

-- `except ValueError as exc: raise HTTPException(422, str(exc))`
unfoldable pub unprocessable {ℓ} : {A : Type ℓ} → Outcome A → Outcome A
unprocessable (raised (value_error m)) = raised (http 422 m)
unprocessable r = r

-- The same exception handlers around a handler: the outcome changes, the session does not.
unfoldable pub reraise {ℓ} : {A : Type ℓ} → (Outcome A → Outcome A) → Handler A → Handler A
reraise f m w = let (r, w') = m w in (f r, w')

-- Queries: `session.scalar(select(k).where(test))` and `session.scalars(...).all()`.
unfoldable pub select_first : (k : Kind) → (RowOf k → Bool) → Handler (Option (RowOf k))
select_first k test w = (returned (find_first test (w.working.rows k)), w)

unfoldable pub select_all : (k : Kind) → (RowOf k → Bool) → Handler (List (RowOf k))
select_all k test w = (returned (where_true test (w.working.rows k)), w)

abbrev pub write : (k : Kind) → List (RowOf k) → World → World
write k rs w = record w { working = put_table k rs w.working }

-- A write that the constraints refuse if `conflict`.
abbrev pub checked_write : Bool → (k : Kind) → List (RowOf k) → World → Outcome (Unit {0}) × World
checked_write conflict k rs w =
    if conflict then (raised integrity_error, w) else (returned tt, write k rs w)

-- `session.add(row)` and the flush that follows it
unfoldable pub insert : (k : Kind) → RowOf k → Handler (Unit {0})
unfolding insert_conflict with_table
insert k row w =
    checked_write (insert_conflict k row (w.working.rows k)) k (w.working.rows k ++ row ∷ []) w

-- The flush after assignments to the fields of a row that was selected.
unfoldable pub save : (k : Kind) → RowOf k → Handler (Unit {0})
unfolding update_conflict replace with_table
save k row w =
    checked_write (update_conflict k row (w.working.rows k)) k (replace k row (w.working.rows k)) w

-- `session.delete(row)`
unfoldable pub delete : (k : Kind) → RowOf k → Handler (Unit {0})
unfolding remove with_table
delete k row w = (returned tt, write k (remove k row (w.working.rows k)) w)

unfoldable pub commit : Handler (Unit {0})
commit w = (returned tt, record w { committed = w.working })

unfoldable pub rollback : Handler (Unit {0})
rollback w = (returned tt, record w { working = w.committed })

-- `session.scalar(select(k).where(test))`, with `raise` where it is None
unfoldable pub select_or : Failure → (k : Kind) → (RowOf k → Bool) → Handler (RowOf k)
select_or e k test w = (or_raise e (find_first test (w.working.rows k)), w)

-- `if x is None: m  else: f(x)`
abbrev pub on_option {ℓ κ} :
    {A : Type ℓ} {B : Type κ} → Option A → Handler B → (A → Handler B) → Handler B
on_option none m f = m
on_option (some a) m f = f a

-- `for x in xs: f(x)`
unfoldable pub for_each {ℓ} : {A : Type ℓ} → List A → (A → Handler (Unit {0})) → Handler (Unit {0})
unfolding ◌>>=◌
for_each [] f = pure tt
for_each (x ∷ xs) f = let rest = for_each xs f in f x >> rest

-- One reading from outside.
unfoldable pub read {ℓ} : {A : Type ℓ} → (ℕ → A) → Handler A
read source w = (returned (source w.reads), record w { reads = w.reads + 1 })

-- The text goes to the WireGuard interface; no rollback takes it back.
unfoldable pub log_applied : String → Handler (Unit {0})
log_applied config w = (returned tt, record w { applied = config ∷ w.applied })

-- The session of one request: it begins at the database, and what it committed stays.
unfoldable pub start : Database → World
start db = record { working = db; committed = db; reads = 0; applied = [] }

unfoldable pub run_request {ℓ} : {A : Type ℓ} → Handler A → Database → Outcome A × Database
unfolding start
run_request m db = let (r, w) = m (start db) in (r, w.committed)
