-- ===== src/Trail/Rules.antt =====
-- Handlers of src/g_one/api.py that audit once before they commit: its three phases, and one rule for each way to
-- build such a handler.
use project_g_one.Api.Selects.{query_rules}
use project_g_one.Prelude.{
  ◌≡◌, refl, ap, ◌⊎◌, inl, inr, String, Bool, true, false, List, [], ◌∷◌, ◌++◌, if◌then◌else◌, ◌+◌,
}
use project_g_one.Outside.{Outside}
use project_g_one.Models.{AuditEvent, Detail}
use project_g_one.Models.Tables.{Kind, Database, with_table}
use project_g_one.Models.Constraints.{insert_conflict}
use project_g_one.Auth.{Principal}
use project_g_one.Session.{
  World, Handler, Outcome, returned, raised, ◌>>=◌, commit, rollback, insert, read, checked_write,
  continue,
}
use project_g_one.Session.Keeps.{Keeps, Keeps-rollback}
use project_g_one.Session.Frame.{Frame, frame_rules}
use project_g_one.Api.Audit.{audit}

-- The event was recorded for the principal.
abbrev pub IsOf : Principal → AuditEvent → Type 0
IsOf p e = (e.actor_id ≡ p.subject) × (e.tenant_id ≡ p.tenant_id)

-- The log is the old one and one event of the principal.
abbrev pub OneMore : Principal → List AuditEvent → List AuditEvent → Type 0
OneMore p old log = (e : AuditEvent) × (log ≡ old ++ e ∷ []) × IsOf p e

module _ (p : Principal) (base : Database) where
  -- Nothing is committed, and the log is as it was.
  pub record Unlogged (log : List AuditEvent) (c : Database) : Type 0 where
    pub same : c ≡ base
    pub log_same : log ≡ base.rows Kind.audit_events

  -- Nothing is committed, and the log has the new event.
  pub record Logged (log : List AuditEvent) (c : Database) : Type 0 where
    pub same : c ≡ base
    pub more : OneMore p (base.rows Kind.audit_events) log

  -- The new event is committed.
  pub record Done (log : List AuditEvent) (c : Database) : Type 0 where
    pub more : OneMore p (base.rows Kind.audit_events) (c.rows Kind.audit_events)

  -- The database is as it was, or has one more event.
  abbrev pub IsAccounted : Database → Type 0
  IsAccounted c = (c ≡ base) ⊎ OneMore p (base.rows Kind.audit_events) (c.rows Kind.audit_events)

  pub record Trailed {A : Type 0} (m : Handler A) : Type 0 where
    pub at : (w : World) → Frame Unlogged w.working w.committed → IsAccounted (m w).1.committed

  pub record Sealed {A : Type 0} (m : Handler A) : Type 0 where
    pub at : (w : World) → Frame Logged w.working w.committed → IsAccounted (m w).1.committed

module _ {p : Principal} {base : Database} where
  pub rollback-Unlogged : Keeps (Frame (Unlogged p base)) rollback
  rollback-Unlogged = Keeps-rollback λ d c h. record {
    holds = record {
      same = h.holds.same;
      log_same = ap (λ (x : Database). x.rows Kind.audit_events) h.holds.same;
    };
  }

  module _ {A : Type 0} where
    pub Trailed-Keeps : (m : Handler A) → Keeps (Frame (Unlogged p base)) m → Trailed p base m
    Trailed-Keeps m k = record { at = λ w h. inl (k.at w h).holds.same }

    pub Sealed-Keeps : (m : Handler A) → Keeps (Frame (Logged p base)) m → Sealed p base m
    Sealed-Keeps m k = record { at = λ w h. inl (k.at w h).holds.same }

    pub Trailed-if :
        (b : Bool) (m n : Handler A)
        → Trailed p base m
        → Trailed p base n
        → Trailed p base (if b then m else n)
    Trailed-if true m n km kn = km
    Trailed-if false m n km kn = kn

  module _ {A B : Type 0} where
    pub Trailed-bind :
        (m : Handler A) (f : A → Handler B)
        → Keeps (Frame (Unlogged p base)) m
        → ((a : A) → Trailed p base (f a))
        → Trailed p base (m >>= f)
    unfolding ◌>>=◌
    Trailed-bind m f km kf = record { at = λ w h. let (r, w') = m w in go r w' (km.at w h) }
      where
        go :
            (r : Outcome A) (w : World)
            → Frame (Unlogged p base) w.working w.committed
            → IsAccounted p base (((λ v. (r, v)) >>= f) w).1.committed
        go (returned a) w h = (kf a).at w h
        go (raised e) w h = inl h.holds.same

    pub Sealed-bind :
        (m : Handler A) (f : A → Handler B)
        → Keeps (Frame (Logged p base)) m
        → ((a : A) → Sealed p base (f a))
        → Sealed p base (m >>= f)
    unfolding ◌>>=◌
    Sealed-bind m f km kf = record { at = λ w h. let (r, w') = m w in go r w' (km.at w h) }
      where
        go :
            (r : Outcome A) (w : World)
            → Frame (Logged p base) w.working w.committed
            → IsAccounted p base (((λ v. (r, v)) >>= f) w).1.committed
        go (returned a) w h = (kf a).at w h
        go (raised e) w h = inl h.holds.same

  pub Sealed-commit : Sealed p base commit
  unfolding commit
  Sealed-commit = record { at = λ w h. inr h.holds.more }

  module _ {B : Type 0} where
    pub Sealed-bind-commit :
        (f : Unit {0} → Handler B)
        → ((u : Unit {0}) → Keeps (Frame (Done p base)) (f u))
        → Sealed p base (commit >>= f)
    unfolding commit ◌>>=◌
    Sealed-bind-commit f kf = record {
      at = λ w h.
          inr
            ((kf tt).at (record w { committed = w.working })
              (record { holds = record { more = h.holds.more } })).holds.more;
    }

-- To record an event is the step from the first phase to the second: it fails, or it adds the event.
module _ {p : Principal} {base : Database} {B : Type 0} where
  Trailed-bind-event :
      (e : AuditEvent)
      → IsOf p e
      → (f : Unit {0} → Handler B) → ((u : Unit {0}) → Sealed p base (f u))
      → Trailed p base (insert Kind.audit_events e >>= f)
  unfolding ◌>>=◌ insert with_table
  Trailed-bind-event e own f kf = record {
    at = λ w h. go w (insert_conflict Kind.audit_events e (w.working.rows Kind.audit_events)) h;
  }
    where
      written : World → Bool → Outcome (Unit {0}) × World
      written w b = checked_write b Kind.audit_events (w.working.rows Kind.audit_events ++ e ∷ []) w

      go :
          (w : World) (b : Bool)
          → Frame (Unlogged p base) w.working w.committed
          → IsAccounted p base (continue (written w b).0 f (written w b).1).1.committed
      go w true h = inl h.holds.same
      go w false h = (kf tt).at (written w false).1 (record {
        holds = record {
          same = h.holds.same;
          more = (e, ap (λ (es : List AuditEvent). es ++ e ∷ []) h.holds.log_same, own);
        };
      })

  pub Trailed-bind-audit :
      (o : Outside) (action target_type target_id : String) (details : List (String × Detail))
      (f : Unit {0} → Handler B)
      → ((u : Unit {0}) → Sealed p base (f u))
      → Trailed p base (audit o p action target_type target_id details >>= f)
  unfolding ◌>>=◌ audit read
  Trailed-bind-audit o action target_type target_id details f kf = record {
    at = λ w h.
        (Trailed-bind-event
            (record {
              id = o.uuid4 w.reads;
              tenant_id = p.tenant_id;
              actor_id = p.subject;
              action = action;
              target_type = target_type;
              target_id = target_id;
              outcome = "success";
              details = details;
              occurred_at = o.clock (w.reads + 1);
            })
            (refl, refl) f kf).at
          (record w { reads = w.reads + 1 + 1 }) h;
  }

pub ruleset trail_rules = (
  frame_rules, query_rules, rollback-Unlogged, Trailed-if, Trailed-bind-audit, Trailed-bind,
  Sealed-commit, Sealed-bind-commit, Sealed-bind, Trailed-Keeps,
)
