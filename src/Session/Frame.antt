-- ===== src/Session/Frame.antt =====
-- Invariants of the audit log, with their rules for writes to the tables.
use project_g_one.Prelude.{◌≡◌, refl, Bool, true, false, List}
use project_g_one.Models.{AuditEvent}
use project_g_one.Models.Tables.{Kind, RowOf, Database, put_table, with_table}
use project_g_one.Session.{insert, save, delete}
use project_g_one.Session.Keeps.{Keeps, Keeps-insert, Keeps-save, Keeps-delete, keeps_rules}

-- What the audit events of the session and the committed database satisfy.
pub record Frame {ℓ} (R : List AuditEvent → Database → Type ℓ) (d c : Database) : Type ℓ where
  pub holds : R (d.rows Kind.audit_events) c

abbrev pub is_audit : Kind → Bool
is_audit Kind.audit_events = true
is_audit _ = false

module _ {ℓ} {R : List AuditEvent → Database → Type ℓ} where
  put_table-Frame :
      (k : Kind) (rs : List (RowOf k)) (d c : Database)
      → is_audit k ≡ false
      → Frame R d c
      → Frame R (put_table k rs d) c
  unfolding with_table
  put_table-Frame Kind.audit_events rs d c other h = cc
  put_table-Frame Kind.devices rs d c other h = record { holds = h.holds }
  put_table-Frame Kind.support_requests rs d c other h = record { holds = h.holds }
  put_table-Frame Kind.users rs d c other h = record { holds = h.holds }
  put_table-Frame Kind.api_tokens rs d c other h = record { holds = h.holds }
  put_table-Frame Kind.networks rs d c other h = record { holds = h.holds }
  put_table-Frame Kind.peers rs d c other h = record { holds = h.holds }
  put_table-Frame Kind.file_servers rs d c other h = record { holds = h.holds }
  put_table-Frame Kind.profiles rs d c other h = record { holds = h.holds }
  put_table-Frame Kind.enrollment_codes rs d c other h = record { holds = h.holds }

  pub insert-Frame : (k : Kind) (r : RowOf k) → is_audit k ≡ false → Keeps (Frame R) (insert k r)
  insert-Frame k r other = Keeps-insert k r λ d c _ h. put_table-Frame k _ d c other h

  pub save-Frame : (k : Kind) (r : RowOf k) → is_audit k ≡ false → Keeps (Frame R) (save k r)
  save-Frame k r other = Keeps-save k r λ d c _ h. put_table-Frame k _ d c other h

  pub delete-Frame : (k : Kind) (r : RowOf k) → is_audit k ≡ false → Keeps (Frame R) (delete k r)
  delete-Frame k r other = Keeps-delete k r λ d c h. put_table-Frame k _ d c other h

pub ruleset frame_rules = (keeps_rules, insert-Frame, save-Frame, delete-Frame, refl)
