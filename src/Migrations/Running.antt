-- ===== src/Migrations/Running.antt =====
-- Running a script of src/g_one/alembic/versions on a database.
use project_g_one.Prelude.{
  ◌≡◌, refl, ap, sym, ◌∙◌, Option, none, some, Option-cases, inl, inr, arith,
}
use project_g_one.Migrations.Alembic.{Operation, View, apply, Script, pass, fail, then_run, inspect}

-- A run that does not fail and leaves the database at a view.
abbrev pub Leads : {A : Type 0} → (A → View) → Option A → View → Type 0
Leads {A = A} view r v = (d : A) × ((r ≡ some d) × (view d ≡ v))

-- The database under Alembic: an operation that `apply` allows is done, and has its effect.
pub record Alembic : Type 1 where
  pub Store : Type 0
  pub view : Store → View
  pub run_operation : Operation → Store → Option Store
  pub run_operation-apply :
      (o : Operation) (d : Store) (v : View)
      → apply o (view d) ≡ some v
      → Leads view (run_operation o d) v

abbrev pub bind {ℓ} : {A : Type ℓ} → Option A → (A → Option A) → Option A
bind none f = none
bind (some a) f = f a

-- The script on a database, and on what the inspector sees of it.
abbrev pub run_script :
    {D : Type 0} → (D → View) → (Operation → D → Option D) → Script → D → Option D
run_script view run pass d = some d
run_script view run fail d = none
run_script view run (then_run o s) d = bind (run o d) (run_script view run s)
run_script view run (inspect f) d = run_script view run (f (view d)) d

abbrev pub run_on_view : Script → View → Option View
run_on_view = run_script (λ v. v) apply

abbrev pub run_on : (a : Alembic) → Script → a.Store → Option a.Store
run_on a = run_script a.view a.run_operation

pub run_on-Leads :
    (a : Alembic) (s : Script) (d : a.Store) (w : View)
    → run_on_view s (a.view d) ≡ some w
    → Leads a.view (run_on a s d) w
run_on-Leads a pass d w h = (d, (refl, cc))
run_on-Leads a fail d w h = ground arith
run_on-Leads a (then_run o s) d w h = elim (Option-cases (apply o (a.view d))) [
  | inl e ↦ ground (arith, e, h)
  | inr (v, e) ↦
      let (d', (r, k)) = a.run_operation-apply o d v e in
      rw r (
        run_on-Leads a s d' w (ap (run_on_view s) k ∙ sym (ap (λ x. bind x (run_on_view s)) e) ∙ h))
]
run_on-Leads a (inspect f) d w h = run_on-Leads a (f (a.view d)) d w h
