-- ===== src/Models/Constraints.antt =====
-- The primary keys and the `UniqueConstraint`s of src/g_one/models.py: two rows that may not stand
-- in one table.
use project_g_one.Prelude.{Bool, false, not, ◌&&◌, ◌||◌, List, [], ◌∷◌, ◌==◌, if◌then◌else◌, any}
use project_g_one.Models.Tables.{Kind, RowOf, id_of, tenant_of}

-- The columns of a constraint, besides the primary key, are equal.
unfoldable pub same_unique : (k : Kind) → RowOf k → RowOf k → Bool
same_unique Kind.devices a b = false
same_unique Kind.support_requests a b = false
same_unique Kind.audit_events a b = false
same_unique Kind.users a b = a.tenant_id == b.tenant_id && a.subject == b.subject
same_unique Kind.api_tokens a b = a.tenant_id == b.tenant_id && a.token_hash == b.token_hash
same_unique Kind.networks a b = a.tenant_id == b.tenant_id
same_unique Kind.peers a b =
    (a.tenant_id == b.tenant_id && a.network_id == b.network_id)
    && (a.public_key == b.public_key || a.address == b.address)
same_unique Kind.file_servers a b = a.tenant_id == b.tenant_id && a.name == b.name
same_unique Kind.profiles a b = a.tenant_id == b.tenant_id && a.name == b.name
same_unique Kind.enrollment_codes a b = a.token_hash == b.token_hash

-- The row that an UPDATE or a DELETE of `a` reaches. The key is the id; the tenant of a row is
-- never assigned, so a row with the key of `a` has its tenant too.
unfoldable pub is_row : (k : Kind) → RowOf k → RowOf k → Bool
is_row k a b = tenant_of k a == tenant_of k b && id_of k a == id_of k b

-- An INSERT of `a` beside these rows violates a constraint.
unfoldable pub insert_conflict : (k : Kind) → RowOf k → List (RowOf k) → Bool
unfolding same_unique
insert_conflict k a = any (λ b. id_of k a == id_of k b || same_unique k a b)

-- An UPDATE to `a` violates a constraint.
unfoldable pub update_conflict : (k : Kind) → RowOf k → List (RowOf k) → Bool
unfolding same_unique is_row
update_conflict k a = any (λ b. not (is_row k a b) && same_unique k a b)

unfoldable pub replace : (k : Kind) → RowOf k → List (RowOf k) → List (RowOf k)
unfolding is_row
replace k a [] = []
replace k a (b ∷ bs) = (if is_row k a b then a else b) ∷ replace k a bs

unfoldable pub remove : (k : Kind) → RowOf k → List (RowOf k) → List (RowOf k)
unfolding is_row
remove k a [] = []
remove k a (b ∷ bs) = let rest = remove k a bs in if is_row k a b then rest else b ∷ rest
