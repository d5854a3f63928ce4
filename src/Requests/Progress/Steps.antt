-- ===== src/Requests/Progress/Steps.antt =====
-- The writes to the table of the requests for support, as steps of one of them.
use mathlib.Core.Path.{subst}
use project_g_one.Prelude.{
  ◌≡◌, refl, sym, ap, ◌∙◌, String, Bool, true, false, ◌&&◌, ◌==◌, List, [], ◌∷◌, ◌++◌, Option, none,
  some, if◌then◌else◌, arith, eq_iff, eq_of_first,
}
use project_g_one.Models.{SupportRequest}
use project_g_one.Models.Tables.{Kind}
use project_g_one.Models.Constraints.{replace, is_row}
use project_g_one.Requests.Progress.{Step, Follows, requested, goes, found}

abbrev is_found : String → String → SupportRequest → Bool
is_found t i r = r.tenant_id == t && r.id == i

-- A row behind the others is found where none of them is.
added : String → String → SupportRequest → Option SupportRequest → Option SupportRequest
added t i r none = if r.tenant_id == t && r.id == i then some r else none
added t i r (some old) = some old

found-append :
    (t i : String) (rs : List SupportRequest) (r : SupportRequest)
    → found t i (rs ++ r ∷ []) ≡ added t i r (found t i rs)
unfolding added
found-append t i [] r = refl
found-append t i (x ∷ rs) r =
    ap (λ (o : Option SupportRequest). if is_found t i x then some x else o) (found-append t i rs r)
    ∙ both (is_found t i x) (found t i rs)
  where
    both :
        (b : Bool) (o : Option SupportRequest)
        → (if b then some x else added t i r o) ≡ added t i r (if b then some x else o)
    both true o = refl
    both false o = refl

written : String → String → SupportRequest → Option SupportRequest → Option SupportRequest
written t i a none = none
written t i a (some old) = if a.tenant_id == t && a.id == i then some a else some old

same_key :
    (t i : String) (a x : SupportRequest)
    → is_row Kind.support_requests a x ≡ true
    → is_found t i a ≡ is_found t i x
unfolding is_row
same_key t i a x e = ground (arith, eq_iff a.tenant_id x.tenant_id, eq_iff a.id x.id)

-- The row that is replaced is the one that was found, or another key's.
replaced_here :
    (t i : String) (a x : SupportRequest) (b : Bool) (o : Option SupportRequest)
    → is_found t i a ≡ b
    → (if b then some a else written t i a o) ≡ written t i a (if b then some x else o)
unfolding written
replaced_here t i a x true o f = ground (arith)
replaced_here t i a x false o f = refl

replaced_there :
    (t i : String) (a x : SupportRequest) (b : Bool) (o : Option SupportRequest)
    → is_row Kind.support_requests a x ≡ false
    → is_found t i x ≡ b
    → (if b then some x else written t i a o) ≡ written t i a (if b then some x else o)
unfolding written is_row
replaced_there t i a x true o n f = ground (
  arith,
  eq_iff a.tenant_id t,
  eq_iff a.id i,
  eq_iff x.tenant_id t,
  eq_iff x.id i,
  eq_iff a.tenant_id x.tenant_id,
  eq_iff a.id x.id,
)
replaced_there t i a x false o n f = refl

found-replace :
    (t i : String) (rs : List SupportRequest) (a : SupportRequest)
    → found t i (replace Kind.support_requests a rs) ≡ written t i a (found t i rs)
unfolding written replace
found-replace t i [] a = refl
found-replace t i (x ∷ rs) a =
    replaced (is_row Kind.support_requests a x) refl (found-replace t i rs a)
  where
    replaced :
        (b : Bool)
        → is_row Kind.support_requests a x ≡ b
        → found t i (replace Kind.support_requests a rs) ≡ written t i a (found t i rs)
        → found t i ((if b then a else x) ∷ replace Kind.support_requests a rs)
          ≡ written t i a (if is_found t i x then some x else found t i rs)
    replaced true e ih =
        ap (λ (o : Option SupportRequest). if is_found t i a then some a else o) ih
        ∙ replaced_here t i a x (is_found t i a) (found t i rs) refl
        ∙ ap (λ (b : Bool). written t i a (if b then some x else found t i rs)) (same_key t i a x e)
    replaced false e ih =
        ap (λ (o : Option SupportRequest). if is_found t i x then some x else o) ih
        ∙ replaced_there t i a x (is_found t i x) (found t i rs) e refl

module _ (t i : String) (first : Option SupportRequest) where
  pub append-Follows :
      (rs : List SupportRequest) (r : SupportRequest)
      → r.state ≡ "pending"
      → Follows first (found t i rs)
      → Follows first (found t i (rs ++ r ∷ []))
  unfolding added
  append-Follows rs r pending h =
      subst (Follows first) (sym (found-append t i rs r)) (new (found t i rs) h)
    where
      new : (o : Option SupportRequest) → Follows first o → Follows first (added t i r o)
      new none h = taken (r.tenant_id == t && r.id == i)
        where
          taken : (b : Bool) → Follows first (if b then some r else none)
          taken true = goes h (requested r pending)
          taken false = h
      new (some old) h = h

  pub replace-Follows :
      (p_tenant p_id : String) (rs : List SupportRequest) (r a : SupportRequest)
      → found p_tenant p_id rs ≡ some r
      → a.tenant_id ≡ p_tenant
      → a.id ≡ p_id
      → Step (some r) (some a)
      → Follows first (found t i rs)
      → Follows first (found t i (replace Kind.support_requests a rs))
  unfolding written
  replace-Follows p_tenant p_id rs r a e same_tenant same_id step h =
      subst (Follows first) (sym (found-replace t i rs a)) (changed (found t i rs) refl h)
    where
      same_row :
          (old : SupportRequest)
          → found t i rs ≡ some old
          → is_found t i a ≡ true
          → some r ≡ some old
      same_row old f k =
          let tenant : a.tenant_id ≡ t = eq_of_first a.tenant_id t (a.id == i) k in
          let id : a.id ≡ i = ground (arith, eq_iff a.id i) in
          sym e
          ∙ ap (λ (x : String). found x p_id rs) (sym same_tenant ∙ tenant)
          ∙ ap (λ (x : String). found t x rs) (sym same_id ∙ id)
          ∙ f

      at_row :
          (old : SupportRequest) (b : Bool)
          → (b ≡ true → some r ≡ some old)
          → Follows first (some old)
          → Follows first (if b then some a else some old)
      at_row old true q h =
          goes h (subst (λ (o : Option SupportRequest). Step o (some a)) (q refl) step)
      at_row old false q h = h

      changed :
          (o : Option SupportRequest)
          → found t i rs ≡ o
          → Follows first o
          → Follows first (written t i a o)
      changed none f h = h
      changed (some old) f h = at_row old (is_found t i a) (same_row old f) h
