-- ===== src/Session/From.antt =====
-- Handlers that come to `P` from a stronger `Before`, which may say what a query found.
use project_g_one.Prelude.{
  ◌≡◌, refl, Bool, true, false, Option, none, some, if◌then◌else◌, find_first,
}
use project_g_one.Models.Tables.{Kind, RowOf, Database, put_table}
use project_g_one.Models.Constraints.{update_conflict, replace}
use project_g_one.Session.{
  Failure, Outcome, returned, raised, World, Handler, ◌>>=◌, ◌>>◌, continue, raise_if, lift,
  or_raise, select_or, save, checked_write,
}
use project_g_one.Session.Keeps.{Keeps, find_first-passes}

pub record From {A : Type 0} (Before P : Database → Database → Type 0) (m : Handler A)
    : Type 0 where
  pub at : (w : World) → Before w.working w.committed → P (m w).1.working (m w).1.committed

module _ {B : Type 0} {P : Database → Database → Type 0} where
  -- What follows a query may use which row it found.
  pub Keeps-bind_found :
      (k : Kind) (test : RowOf k → Bool) (e : Failure) (f : RowOf k → Handler B)
      → ((r : RowOf k)
          → test r ≡ true
          → From (λ d c. P d c × (find_first test (d.rows k) ≡ some r)) P (f r))
      → Keeps P (select_or e k test >>= f)
  unfolding select_or ◌>>=◌
  Keeps-bind_found k test e f kf = record {
    at = λ w h. go w (find_first test (w.working.rows k)) refl h;
  }
    where
      go :
          (w : World) (x : Option (RowOf k))
          → find_first test (w.working.rows k) ≡ x
          → P w.working w.committed
          → P ((lift (or_raise e x) >>= f) w).1.working ((lift (or_raise e x) >>= f) w).1.committed
      go w none eq h = h
      go w (some r) eq h = (kf r (find_first-passes test (w.working.rows k) r eq)).at w (h, eq)

module _ {Before P : Database → Database → Type 0}
    (weaker : (d c : Database) → Before d c → P d c) where
  module _ {A B : Type 0} where
    pub From-bind_read :
        (m : Handler A) (f : A → Handler B)
        → Keeps Before m
        → ((a : A) → From Before P (f a))
        → From Before P (m >>= f)
    unfolding ◌>>=◌
    From-bind_read m f km kf = record { at = λ w h. let (r, w') = m w in go r w' (km.at w h) }
      where
        go :
            (r : Outcome A) (w : World)
            → Before w.working w.committed
            → P (continue r f w).1.working (continue r f w).1.committed
        go (returned a) w h = (kf a).at w h
        go (raised e) w h = weaker w.working w.committed h

    pub From-bind_write :
        (m : Handler A) (f : A → Handler B)
        → From Before P m
        → ((a : A) → Keeps P (f a))
        → From Before P (m >>= f)
    unfolding ◌>>=◌
    From-bind_write m f km kf = record { at = λ w h. let (r, w') = m w in go r w' (km.at w h) }
      where
        go :
            (r : Outcome A) (w : World)
            → P w.working w.committed
            → P (continue r f w).1.working (continue r f w).1.committed
        go (returned a) w h = (kf a).at w h
        go (raised e) w h = h

  module _ {B : Type 0} where
    -- What follows a guard may use that it did not raise.
    pub From-bind_raise_if :
        (b : Bool) (e : Failure) (m : Handler B)
        → (b ≡ false → From Before P m)
        → From Before P (raise_if b e >> m)
    unfolding ◌>>=◌ raise_if
    From-bind_raise_if true e m km = record { at = λ w h. weaker w.working w.committed h }
    From-bind_raise_if false e m km = record { at = λ w h. (km refl).at w h }

    pub From-if :
        (b : Bool) (m n : Handler B)
        → From Before P m
        → From Before P n
        → From Before P (if b then m else n)
    From-if true m n km kn = km
    From-if false m n km kn = kn

  pub From-save :
      (k : Kind) (r : RowOf k)
      → ((d c : Database) → Before d c → P (put_table k (replace k r (d.rows k)) d) c)
      → From Before P (save k r)
  unfolding save
  From-save k r step = record { at = λ w h. go w h (update_conflict k r (w.working.rows k)) }
    where
      go :
          (w : World)
          → Before w.working w.committed
          → (b : Bool)
          → P
              (checked_write b k (replace k r (w.working.rows k)) w).1.working
              (checked_write b k (replace k r (w.working.rows k)) w).1.committed
      go w h true = weaker w.working w.committed h
      go w h false = step w.working w.committed h
