-- ===== src/Session/Keeps.antt =====
-- Invariants of handlers, with one rule for each way to build a handler.
use project_g_one.Prelude.{
  ◌≡◌, refl, String, Bool, true, false, Option, none, some, List, [], ◌∷◌, ◌++◌, if◌then◌else◌,
  find_first, where_true, arith,
}
use project_g_one.Models.Tables.{Kind, RowOf, Database, put_table}
use project_g_one.Models.Constraints.{insert_conflict, update_conflict, replace, remove}
use project_g_one.Session.{
  Failure, Outcome, returned, raised, World, Handler, pure, raise, lift, or_raise, ◌>>=◌, raise_if,
  except_integrity, integrity_error, http, value_error, type_error, os_error, select_first,
  select_all, select_or, on_option, read, checked_write, insert, save, delete, commit, rollback,
  for_each, log_applied, reraise,
}

-- `m` keeps `P` of the session's database and the committed one, whether it returns or raises.
pub record Keeps {ℓ} {A : Type 0} (P : Database → Database → Type ℓ) (m : Handler A) : Type ℓ where
  pub at : (w : World) → P w.working w.committed → P (m w).1.working (m w).1.committed

-- `test` holds of each member.
abbrev pub AllOf {ℓ} : {A : Type 0} → (A → Type ℓ) → List A → Type ℓ
AllOf Q [] = Unit
AllOf Q (x ∷ xs) = Q x × AllOf Q xs

pub find_first-passes :
    {A : Type 0} (test : A → Bool) (xs : List A) (x : A)
    → find_first test xs ≡ some x
    → test x ≡ true
find_first-passes test [] x h = cc
find_first-passes test (y ∷ ys) x h = ground (arith, find_first-passes test ys x)

module _ {ℓ} {A : Type 0} {P : Database → Database → Type ℓ} where
  pub Keeps-pure : (a : A) → Keeps P (pure a)
  unfolding pure
  Keeps-pure a = record { at = λ w h. h }

  pub Keeps-raise : (e : Failure) → Keeps P (raise {A = A} e)
  unfolding raise
  Keeps-raise e = record { at = λ w h. h }

  pub Keeps-lift : (r : Outcome A) → Keeps P (lift r)
  unfolding lift
  Keeps-lift r = record { at = λ w h. h }

  pub Keeps-if :
      (test : Bool) (body rest : Handler A)
      → (test ≡ true → Keeps P body)
      → (test ≡ false → Keeps P rest)
      → Keeps P (if test then body else rest)
  Keeps-if false body rest on_true on_false = on_false refl
  Keeps-if true body rest on_true on_false = on_true refl

  pub Keeps-on_option :
      {B : Type 0} (x : Option B) (m : Handler A) (f : B → Handler A)
      → Keeps P m
      → ((b : B) → Keeps P (f b))
      → Keeps P (on_option x m f)
  Keeps-on_option none m f km kf = km
  Keeps-on_option (some b) m f km kf = kf b

  pub Keeps-except : (m n : Handler A) → Keeps P m → Keeps P n → Keeps P (except_integrity m n)
  unfolding except_integrity
  Keeps-except m n km kn = record { at = λ w h. let (r, w') = m w in go r w' (km.at w h) }
    where
      go :
          (r : Outcome A) (w : World)
          → P w.working w.committed
          → P
              (except_integrity {A = A} (λ v. (r, w)) n w).1.working
              (except_integrity {A = A} (λ v. (r, w)) n w).1.committed
      go (returned a) w h = h
      go (raised integrity_error) w h = kn.at w h
      go (raised (http c d)) w h = h
      go (raised (value_error d)) w h = h
      go (raised (type_error d)) w h = h
      go (raised os_error) w h = h

  pub Keeps-reraise :
      (f : Outcome A → Outcome A) (m : Handler A) → Keeps P m → Keeps P (reraise f m)
  unfolding reraise
  Keeps-reraise f m km = record { at = λ w h. km.at w h }

  pub Keeps-read : (source : _ → A) → Keeps P (read source)
  unfolding read
  Keeps-read source = record { at = λ w h. h }

module _ {ℓ} {P : Database → Database → Type ℓ} where
  pub Keeps-raise_if : (b : Bool) (e : Failure) → Keeps P (raise_if b e)
  unfolding raise_if
  Keeps-raise_if b e = record { at = λ w h. h }

  pub Keeps-select_first : (k : Kind) (test : RowOf k → Bool) → Keeps P (select_first k test)
  unfolding select_first
  Keeps-select_first k test = record { at = λ w h. h }

  pub Keeps-select_or :
      (e : Failure) (k : Kind) (test : RowOf k → Bool) → Keeps P (select_or e k test)
  unfolding select_or
  Keeps-select_or e k test = record { at = λ w h. h }

  pub Keeps-select_all : (k : Kind) (test : RowOf k → Bool) → Keeps P (select_all k test)
  unfolding select_all
  Keeps-select_all k test = record { at = λ w h. h }

module _ {ℓ} {A B : Type 0} {P : Database → Database → Type ℓ} where
  -- What follows may use that `r` returned.
  pub Keeps-bind-lift :
      (r : Outcome A) (f : A → Handler B)
      → ((a : A) → r ≡ returned a → Keeps P (f a))
      → Keeps P (lift r >>= f)
  unfolding ◌>>=◌
  Keeps-bind-lift (returned a) f kf = kf a refl
  Keeps-bind-lift (raised e) f kf = record { at = λ w h. h }

  pub Keeps-bind :
      (m : Handler A) (f : A → Handler B)
      → Keeps P m
      → ((a : A) → Keeps P (f a))
      → Keeps P (m >>= f)
  unfolding ◌>>=◌
  Keeps-bind m f km kf = record {
    at = λ w h. let (r, w') = m w in (Keeps-bind-lift r f (λ a _. kf a)).at w' (km.at w h);
  }

module _ {ℓ} {B : Type 0} {P : Database → Database → Type ℓ} (k : Kind)
    (test : RowOf k → Bool) where
  pub Keeps-bind-select_or :
      (e : Failure) (f : RowOf k → Handler B)
      → ((r : RowOf k) → test r ≡ true → Keeps P (f r))
      → Keeps P (select_or e k test >>= f)
  unfolding select_or ◌>>=◌
  Keeps-bind-select_or e f kf = record {
    at = λ w h. go w (find_first test (w.working.rows k)) refl h;
  }
    where
      go :
          (w : World) (x : Option (RowOf k))
          → find_first test (w.working.rows k) ≡ x
          → P w.working w.committed
          → P ((lift (or_raise e x) >>= f) w).1.working ((lift (or_raise e x) >>= f) w).1.committed
      go w none eq h = h
      go w (some r) eq h = (kf r (find_first-passes test (w.working.rows k) r eq)).at w h

  pub Keeps-bind-select_first :
      (f : Option (RowOf k) → Handler B)
      → Keeps P (f none)
      → ((r : RowOf k) → test r ≡ true → Keeps P (f (some r)))
      → Keeps P (select_first k test >>= f)
  unfolding select_first ◌>>=◌
  Keeps-bind-select_first f kn kf = record {
    at = λ w h. go w (find_first test (w.working.rows k)) refl h;
  }
    where
      go :
          (w : World) (x : Option (RowOf k))
          → find_first test (w.working.rows k) ≡ x
          → P w.working w.committed
          → P (f x w).1.working (f x w).1.committed
      go w none eq h = kn.at w h
      go w (some r) eq h = (kf r (find_first-passes test (w.working.rows k) r eq)).at w h

keeps_checked {ℓ} :
    (P : Database → Database → Type ℓ) (b : Bool) (k : Kind) (rs : List (RowOf k)) (w : World)
    → (b ≡ false → P (put_table k rs w.working) w.committed)
    → P w.working w.committed
    → P (checked_write b k rs w).1.working (checked_write b k rs w).1.committed
keeps_checked P true k rs w new old = old
keeps_checked P false k rs w new old = new refl

-- The writes keep what the tables that they leave behind keep.
module _ {ℓ} {P : Database → Database → Type ℓ} (k : Kind) (r : RowOf k) where
  pub Keeps-insert :
      ((d c : Database)
        → insert_conflict k r (d.rows k) ≡ false
        → P d c
        → P (put_table k (d.rows k ++ r ∷ []) d) c)
      → Keeps P (insert k r)
  unfolding insert
  Keeps-insert step = record {
    at = λ w h.
        keeps_checked P (insert_conflict k r (w.working.rows k)) k (w.working.rows k ++ r ∷ []) w
          (λ e. step w.working w.committed e h) h;
  }

  pub Keeps-save :
      ((d c : Database)
        → update_conflict k r (d.rows k) ≡ false
        → P d c
        → P (put_table k (replace k r (d.rows k)) d) c)
      → Keeps P (save k r)
  unfolding save
  Keeps-save step = record {
    at = λ w h.
        keeps_checked P (update_conflict k r (w.working.rows k)) k (replace k r (w.working.rows k))
          w (λ e. step w.working w.committed e h) h;
  }

  pub Keeps-delete :
      ((d c : Database) → P d c → P (put_table k (remove k r (d.rows k)) d) c)
      → Keeps P (delete k r)
  unfolding delete
  Keeps-delete step = record { at = λ w h. step w.working w.committed h }

module _ {ℓ} {P : Database → Database → Type ℓ} where
  pub Keeps-log_applied : (config : String) → Keeps P (log_applied config)
  unfolding log_applied
  Keeps-log_applied config = record { at = λ w h. h }

  pub Keeps-commit : ((d c : Database) → P d c → P d d) → Keeps P commit
  unfolding commit
  Keeps-commit step = record { at = λ w h. step w.working w.committed h }

  pub Keeps-rollback : ((d c : Database) → P d c → P c c) → Keeps P rollback
  unfolding rollback
  Keeps-rollback step = record { at = λ w h. step w.working w.committed h }

  pub Keeps-for_each :
      {A : Type 0} (xs : List A) (f : A → Handler (Unit {0}))
      → AllOf (λ x. Keeps P (f x)) xs
      → Keeps P (for_each xs f)
  unfolding for_each
  Keeps-for_each [] f h = Keeps-pure tt
  Keeps-for_each (x ∷ xs) f h =
      Keeps-bind (f x) (λ _. for_each xs f) h.0 (λ _. Keeps-for_each xs f h.1)

-- A loop over the rows of a query may use what the query says of each.
where_true-AllOf :
    {A : Type 0} (test : A → Bool) (xs : List A) → AllOf (λ x. test x ≡ true) (where_true test xs)
where_true-AllOf test [] = tt
where_true-AllOf test (x ∷ xs) = ground (arith, where_true-AllOf test xs)

AllOf-map {ℓ κ} :
    {A : Type 0} {Q : A → Type ℓ} {R : A → Type κ} (xs : List A)
    → ((x : A) → Q x → R x)
    → AllOf Q xs
    → AllOf R xs
AllOf-map [] f h = tt
AllOf-map (x ∷ xs) f h = (f x h.0, AllOf-map xs f h.1)

module _ {ℓ} {P : Database → Database → Type ℓ} (k : Kind) (test : RowOf k → Bool) where
  pub Keeps-for_rows :
      (g : RowOf k → Handler (Unit {0}))
      → ((r : RowOf k) → test r ≡ true → Keeps P (g r))
      → Keeps P (select_all k test >>= λ rows. for_each rows g)
  unfolding select_all ◌>>=◌
  Keeps-for_rows g kg = record {
    at = λ w h.
        let rows = where_true test (w.working.rows k) in
        (Keeps-for_each rows g (AllOf-map rows kg (where_true-AllOf test (w.working.rows k)))).at w
          h;
  }

pub ruleset keeps_rules = (
  Keeps-pure, Keeps-raise, Keeps-lift, Keeps-if, Keeps-on_option, Keeps-except, Keeps-reraise,
  Keeps-read, Keeps-log_applied, Keeps-raise_if, Keeps-select_all, Keeps-bind, Keeps-bind-select_or,
  Keeps-bind-select_first,
)
