-- ===== src/Api/Visible.antt =====
-- The part of the database that the replies of src/g_one/api.py may show to a tenant: its own rows,
-- without hashes of passwords and tokens.
use project_g_one.Prelude.{
  ◌≡◌, refl, String, Bool, true, none, List, [], ◌∷◌, ◌==◌, map, where_true, find_first, arith,
}
use project_g_one.Models.Tables.{Kind, RowOf, Database, tenant_of}

abbrev pub conceal : (k : Kind) → RowOf k → RowOf k
conceal Kind.users u = record u { password_hash = none }
conceal Kind.api_tokens t = record t { token_hash = "" }
conceal Kind.enrollment_codes c = record c { token_hash = "" }
conceal Kind.devices r = r
conceal Kind.support_requests r = r
conceal Kind.audit_events r = r
conceal Kind.networks r = r
conceal Kind.peers r = r
conceal Kind.file_servers r = r
conceal Kind.profiles r = r

abbrev pub visible : String → Database → Database
visible tenant db = record {
  rows = λ k. map (conceal k) (where_true (λ r. tenant_of k r == tenant) (db.rows k));
  initialized = none;
}

module _ {A : Type 0} (test own : A → Bool) (c : A → A) (same : (x : A) → test (c x) ≡ test x)
    (mine : (x : A) → test x ≡ true → own x ≡ true) where
  -- The query finds the same rows among the visible ones, with their secrets concealed.
  pub where_true-visible :
      (xs : List A) → where_true test (map c (where_true own xs)) ≡ map c (where_true test xs)
  where_true-visible [] = refl
  where_true-visible (x ∷ xs) = ground (arith, where_true-visible xs, same x, mine x)

  pub find_first-visible :
      ((x : A) → c x ≡ x)
      → (xs : List A) → find_first test (map c (where_true own xs)) ≡ find_first test xs
  find_first-visible keep [] = refl
  find_first-visible keep (x ∷ xs) =
      ground (arith, find_first-visible keep xs, same x, mine x, keep x)
