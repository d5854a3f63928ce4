-- ===== src/Api/Audit.antt =====
-- The clock and the audit log: `now` and `audit` of src/g_one/api.py.
use project_g_one.Prelude.{ℕ, String, List}
use project_g_one.Outside.{Outside}
use project_g_one.Models.{Detail}
use project_g_one.Models.Tables.{Kind}
use project_g_one.Auth.{Principal}
use project_g_one.Session.{Handler, ◌>>=◌, read, insert}

module _ (o : Outside) where
  abbrev pub now : Handler ℕ
  now = read o.clock

  -- the default of a primary key
  abbrev pub new_id : Handler String
  new_id = read o.uuid4

  unfoldable pub audit :
      Principal → String → String → String → List (String × Detail) → Handler (Unit {0})
  audit p action target_type target_id details = do
    id ← new_id
    at ← now
    insert Kind.audit_events (record {
      id = id;
      tenant_id = p.tenant_id;
      actor_id = p.subject;
      action = action;
      target_type = target_type;
      target_id = target_id;
      outcome = "success";
      details = details;
      occurred_at = at;
    })
