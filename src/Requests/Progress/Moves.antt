-- ===== src/Requests/Progress/Moves.antt =====
-- Every request moves each request for support along the steps: the handlers of src/g_one/api.py.
use project_g_one.Prelude.{
  ◌≡◌, refl, ◌∙◌, ℕ, String, Bool, true, false, not, ◌&&◌, ◌==◌, List, Option, some, if◌then◌else◌,
  arith, eq_iff, eq_of_first,
}
use project_g_one.Outside.{Outside}
use project_g_one.Settings.{Settings}
use project_g_one.Models.{SupportRequest}
use project_g_one.Models.Tables.{Kind, RowOf, Database, put_table, with_table}
use project_g_one.Auth.{Principal}
use project_g_one.Session.{insert, save, start, run_request}
use project_g_one.Session.Keeps.{
  Keeps, Keeps-insert, Keeps-save, Keeps-delete, Keeps-commit, Keeps-rollback, Keeps-read,
  Keeps-select_first,
}
use project_g_one.Session.From.{
  From, Keeps-bind_found, From-bind_read, From-bind_write, From-bind_raise_if, From-if, From-save,
}
use project_g_one.Api.Audit.{now}
use project_g_one.Api.Sessions.{claim_installation}
use project_g_one.Api.Support.{
  SupportRequestCreate, create_support_request, get_support_request, target_device,
  decide_support_request, end_support_request,
}
use project_g_one.Consistency.Writes.{IsClosed, is_other, closed_rules}
use project_g_one.Requests.Consistency.{dispatch-closed}
use project_g_one.Requests.{Request, handle}
use project_g_one.Requests.Progress.{Step, Follows, stays, accepted, denied, expired, ended, found}
use project_g_one.Requests.Progress.Steps.{append-Follows, replace-Follows}

now-Keeps : {P : Database → Database → Type 0} (o : Outside) → Keeps P (now o)
now-Keeps o = Keeps-read _

device-Keeps :
    {P : Database → Database → Type 0} (o : Outside) (p : Principal) (r : SupportRequest)
    → Keeps P (target_device o p r)
unfolding target_device
device-Keeps o p r = Keeps-select_first Kind.devices _

module _ (t i : String) (first : Option SupportRequest) where
  -- The request for support in a database, after steps from `first`.
  abbrev InStep : Database → Type 0
  InStep d = Follows first (found t i (d.rows Kind.support_requests))

  abbrev Both : Database → Database → Type 0
  Both d c = InStep d × InStep c

  other_table :
      (k : Kind) (rs : List (RowOf k)) (d : Database)
      → is_other k ≡ true
      → InStep d
      → InStep (put_table k rs d)
  unfolding with_table
  other_table Kind.support_requests rs d other h = cc
  other_table Kind.audit_events rs d other h = h
  other_table Kind.devices rs d other h = h
  other_table Kind.users rs d other h = h
  other_table Kind.api_tokens rs d other h = h
  other_table Kind.networks rs d other h = h
  other_table Kind.peers rs d other h = h
  other_table Kind.file_servers rs d other h = h
  other_table Kind.profiles rs d other h = h
  other_table Kind.enrollment_codes rs d other h = h

  Both-IsClosed : IsClosed Both
  unfolding claim_installation
  Both-IsClosed = record {
    at_insert = λ k r o. Keeps-insert k r λ d c free h. (other_table k _ d o h.0, h.1);
    at_save = λ k r o. Keeps-save k r λ d c free h. (other_table k _ d o h.0, h.1);
    at_delete = λ k r o. Keeps-delete k r λ d c h. (other_table k _ d o h.0, h.1);
    at_commit = Keeps-commit λ d c h. (h.0, h.0);
    at_rollback = Keeps-rollback λ d c h. (h.1, h.1);
    at_claim = record { at = λ w h. h };
  }

  insert-Both :
      (r : SupportRequest) → r.state ≡ "pending" → Keeps Both (insert Kind.support_requests r)
  unfolding with_table
  insert-Both r pending =
      Keeps-insert Kind.support_requests r
        λ d c free h. (append-Follows t i first (d.rows Kind.support_requests) r pending h.0, h.1)

  module _ (o : Outside) (p : Principal) where
    create-Both : (body : SupportRequestCreate) → Keeps Both (create_support_request o p body)
    unfolding create_support_request
    create-Both body = search (closed_rules, Both-IsClosed, insert-Both, refl) depth 40

    -- The tenant's request with the id is `r`.
    abbrev Stored : String → SupportRequest → Database → Database → Type 0
    Stored id r d c = Both d c × (found p.tenant_id id (d.rows Kind.support_requests) ≡ some r)

    save-Stored :
        (id : String) (r a : SupportRequest)
        → (r.tenant_id == p.tenant_id && r.id == id) ≡ true
        → a.tenant_id ≡ r.tenant_id
        → a.id ≡ r.id
        → Step (some r) (some a)
        → From (Stored id r) Both (save Kind.support_requests a)
    unfolding with_table
    save-Stored id r a f same_tenant same_id step =
        From-save (λ d c h. h.0) Kind.support_requests a
          λ d c h. (
            replace-Follows t i first p.tenant_id id (d.rows Kind.support_requests) r a h.1
                (same_tenant ∙ eq_of_first r.tenant_id p.tenant_id (r.id == id) f)
                (same_id ∙ ground (arith, eq_iff r.id id)) step (h.0).0,
            (h.0).1,
          )

    pending_of : (r : SupportRequest) → not (r.state == "pending") ≡ false → r.state ≡ "pending"
    pending_of r s = ground (arith, eq_iff r.state "pending")

    end-Both : (id : String) → Keeps Both (end_support_request o p id)
    unfolding end_support_request get_support_request
    end-Both id =
        Keeps-bind_found Kind.support_requests (λ r. r.tenant_id == p.tenant_id && r.id == id) _ _
          λ r f.
            From-bind_read (λ d c h. h.0) (target_device o p r) _ (device-Keeps o p r)
              λ device.
                From-bind_raise_if (λ d c h. h.0) _ _ _
                  λ _.
                    From-bind_raise_if (λ d c h. h.0) _ _ _
                      λ s.
                        From-bind_read (λ d c h. h.0) (now o) _ (now-Keeps o)
                          λ at.
                            From-bind_write (λ d c h. h.0) _ _
                              (save-Stored id r _ f refl refl
                                (ended r at (ground (arith, eq_iff r.state "accepted"))))
                              λ _. search (closed_rules, Both-IsClosed) depth 20

    decided-Step :
        (r : SupportRequest) (at : ℕ) (accept : Bool)
        → r.state ≡ "pending"
        → Step (some r) (
            some
              (record r { state = if accept then "accepted" else "denied"; decided_at = some at }))
    decided-Step r at true s = accepted r at s
    decided-Step r at false s = denied r at s

    decide-Both : (id : String) (accept : Bool) → Keeps Both (decide_support_request o p id accept)
    unfolding decide_support_request get_support_request
    decide-Both id accept =
        Keeps-bind_found Kind.support_requests (λ r. r.tenant_id == p.tenant_id && r.id == id) _ _
          λ r f.
            From-bind_read (λ d c h. h.0) (target_device o p r) _ (device-Keeps o p r)
              λ device.
                From-bind_raise_if (λ d c h. h.0) _ _ _
                  λ _.
                    From-bind_raise_if (λ d c h. h.0) _ _ _
                      λ s.
                        From-bind_read (λ d c h. h.0) (now o) _ (now-Keeps o)
                          λ at.
                            From-if (λ d c h. h.0) _ _ _
                              (From-bind_write (λ d c h. h.0) _ _
                                (save-Stored id r _ f refl refl (expired r (pending_of r s)))
                                λ _. search (closed_rules, Both-IsClosed) depth 20)
                              (From-bind_read (λ d c h. h.0) (now o) _ (now-Keeps o)
                                λ decided.
                                  From-bind_write (λ d c h. h.0) _ _
                                    (save-Stored id r _ f refl refl
                                      (decided-Step r decided accept (pending_of r s)))
                                    λ _. search (closed_rules, Both-IsClosed) depth 20)

-- Whatever a request to the server is, each request for support moves along the steps of the state
-- machine, or stays: seen by its id in its tenant, in the database before and after.
pub handle-Follows :
    (settings : Settings) (r : Request) (db : Database) (tenant_id id : String)
    → Follows
        (found tenant_id id (db.rows Kind.support_requests))
        (found tenant_id id ((handle settings r db).rows Kind.support_requests))
unfolding handle run_request start
handle-Follows settings r db t i =
    let first = found t i (db.rows Kind.support_requests) in
    ((dispatch-closed (Both-IsClosed t i first) r.outside settings r.principal
        (create-Both t i first r.outside r.principal) (decide-Both t i first r.outside r.principal)
        (end-Both t i first r.outside r.principal) r.call).at
      (start db) (stays, stays)).1
