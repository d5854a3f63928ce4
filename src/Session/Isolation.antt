-- ===== src/Session/Isolation.antt =====
-- Tenant isolation of queries and writes of a session, as an invariant.
use project_g_one.Prelude.{
  ◌≡◌, refl, ◌∙◌, String, not, List, [], ◌∷◌, ◌++◌, ◌==◌, eq_iff, arith, where_true, eq_of_first,
}
use project_g_one.Models.Tables.{Kind, RowOf, tenant_of, Database, put_table, Each-with_table}
use project_g_one.Models.Constraints.{replace, remove, is_row}
use project_g_one.Session.{insert, save, delete, commit, rollback}
use project_g_one.Session.Keeps.{
  Keeps, Keeps-insert, Keeps-save, Keeps-delete, Keeps-commit, Keeps-rollback, keeps_rules,
}

-- The rows of a table that are not of the tenant.
abbrev pub foreign : String → (k : Kind) → List (RowOf k) → List (RowOf k)
foreign tenant k = where_true (λ r. not (tenant_of k r == tenant))

foreign-append :
    (t : String) (k : Kind) (rs : List (RowOf k)) (r : RowOf k)
    → tenant_of k r ≡ t
    → foreign t k (rs ++ r ∷ []) ≡ foreign t k rs
foreign-append t k [] r own = ground (arith, eq_iff (tenant_of k r) t)
foreign-append t k (x ∷ xs) r own = ground (arith, foreign-append t k xs r own)

foreign-replace :
    (t : String) (k : Kind) (rs : List (RowOf k)) (r : RowOf k)
    → tenant_of k r ≡ t
    → foreign t k (replace k r rs) ≡ foreign t k rs
unfolding replace is_row
foreign-replace t k [] r own = refl
foreign-replace t k (x ∷ xs) r own = ground (
  arith,
  foreign-replace t k xs r own,
  eq_iff (tenant_of k r) t,
  eq_iff (tenant_of k x) t,
  eq_iff (tenant_of k r) (tenant_of k x),
)

foreign-remove :
    (t : String) (k : Kind) (rs : List (RowOf k)) (r : RowOf k)
    → tenant_of k r ≡ t
    → foreign t k (remove k r rs) ≡ foreign t k rs
unfolding remove is_row
foreign-remove t k [] r own = refl
foreign-remove t k (x ∷ xs) r own = ground (
  arith,
  foreign-remove t k xs r own,
  eq_iff (tenant_of k r) t,
  eq_iff (tenant_of k x) t,
  eq_iff (tenant_of k r) (tenant_of k x),
)

module _ (tenant : String) (base : Database) where
  -- In the session and in the database, the rows of other tenants and the installation state are
  -- those of `base`.
  pub record IsIsolated (working committed : Database) : Type 0 where
    pub in_session : (k : Kind) → foreign tenant k (working.rows k) ≡ foreign tenant k (base.rows k)
    pub in_database :
        (k : Kind) → foreign tenant k (committed.rows k) ≡ foreign tenant k (base.rows k)
    pub state_in_session : working.initialized ≡ base.initialized
    pub state_in_database : committed.initialized ≡ base.initialized

  put_table-IsIsolated :
      (k : Kind) (rs : List (RowOf k)) (d c : Database)
      → foreign tenant k rs ≡ foreign tenant k (d.rows k)
      → IsIsolated d c
      → IsIsolated (put_table k rs d) c
  put_table-IsIsolated k rs d c same h = record {
    in_session =
        Each-with_table (λ j xs. foreign tenant j xs ≡ foreign tenant j (base.rows j)) k rs d.rows
          (same ∙ h.in_session k) h.in_session;
    in_database = h.in_database;
    state_in_session = h.state_in_session;
    state_in_database = h.state_in_database;
  }

  pub insert-IsIsolated :
      (k : Kind) (r : RowOf k) → tenant_of k r ≡ tenant → Keeps IsIsolated (insert k r)
  insert-IsIsolated k r own =
      Keeps-insert k r
        λ d c _ h. put_table-IsIsolated k _ d c (foreign-append tenant k (d.rows k) r own) h

  pub save-IsIsolated :
      (k : Kind) (r : RowOf k) → tenant_of k r ≡ tenant → Keeps IsIsolated (save k r)
  save-IsIsolated k r own =
      Keeps-save k r
        λ d c _ h. put_table-IsIsolated k _ d c (foreign-replace tenant k (d.rows k) r own) h

  pub delete-IsIsolated :
      (k : Kind) (r : RowOf k) → tenant_of k r ≡ tenant → Keeps IsIsolated (delete k r)
  delete-IsIsolated k r own =
      Keeps-delete k r
        λ d c h. put_table-IsIsolated k _ d c (foreign-remove tenant k (d.rows k) r own) h

  pub commit-IsIsolated : Keeps IsIsolated commit
  commit-IsIsolated = Keeps-commit λ d c h. record {
    in_session = h.in_session;
    in_database = h.in_session;
    state_in_session = h.state_in_session;
    state_in_database = h.state_in_session;
  }

  pub rollback-IsIsolated : Keeps IsIsolated rollback
  rollback-IsIsolated = Keeps-rollback λ d c h. record {
    in_session = h.in_database;
    in_database = h.in_database;
    state_in_session = h.state_in_database;
    state_in_database = h.state_in_database;
  }

pub ruleset isolation_rules = (
  keeps_rules, insert-IsIsolated, save-IsIsolated, delete-IsIsolated, commit-IsIsolated,
  rollback-IsIsolated, refl, eq_of_first,
)
