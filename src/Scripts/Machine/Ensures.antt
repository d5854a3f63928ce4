-- ===== src/Scripts/Machine/Ensures.antt =====
-- What holds of the actions of a script where it returns.
use project_g_one.Prelude.{
  ◌≡◌, refl, sym, ap, ◌∙◌, Bool, true, false, not, ◌||◌, List, if◌then◌else◌,
}
use project_g_one.Scripts.Machine.{
  Action, Host, Outcome, returned, raised, Script, pure, ◌>>=◌, continue,
}

-- A test of the result and the actions, where the script returns.
unfoldable pub Ensures {ℓ} : {A : Type ℓ} → (A → List Action → Bool) → Script A → Type ℓ
Ensures {A = A} test s = (h : Host) (a : A) → (s h).0 ≡ returned a → test a ((s h).1).done ≡ true

-- The same, where the script starts after actions that pass a test.
unfoldable pub EnsuresAfter {ℓ} :
    {A : Type ℓ} → (List Action → Bool) → (A → List Action → Bool) → Script A → Type ℓ
EnsuresAfter {A = A} before test s =
    (h : Host) (a : A) → before h.done ≡ true → (s h).0 ≡ returned a → test a ((s h).1).done ≡ true

module _ {ℓ κ} {A : Type ℓ} {B : Type κ} (middle : A → List Action → Bool)
    (test : B → List Action → Bool) where
  pub bind-EnsuresAfter :
      (s : Script A) (f : A → Script B)
      → Ensures middle s
      → ((a : A) → EnsuresAfter (middle a) test (f a))
      → Ensures test (s >>= f)
  unfolding Ensures EnsuresAfter ◌>>=◌
  bind-EnsuresAfter s f k l h b e = continued (s h) refl e
    where
      continued :
          (p : Outcome A × Host)
          → s h ≡ p
          → (continue p.0 f p.1).0 ≡ returned b
          → test b ((continue p.0 f p.1).1).done ≡ true
      continued (returned a, h') q e =
          l a h' b
            (sym (ap (λ (x : Outcome A × Host). middle a (x.1).done) q)
              ∙ k h a (ap (λ (x : Outcome A × Host). x.0) q))
            e
      continued (raised x, h') q e = cc

module _ {ℓ κ} {A : Type ℓ} {B : Type κ} (test : B → List Action → Bool) where
  pub bind-Ensures :
      (s : Script A) (f : A → Script B) → ((a : A) → Ensures test (f a)) → Ensures test (s >>= f)
  unfolding Ensures EnsuresAfter
  bind-Ensures s f l =
      bind-EnsuresAfter (λ _ _. true) test s f (λ h a e. refl) (λ a h b t e. l a h b e)

value_in {ℓ} : {B : Type ℓ} → B → Outcome B → B
value_in b (returned a) = a
value_in b (raised e) = b

-- The result of a script that only returns.
pub returned-Ensures {ℓ} :
    {B : Type ℓ} (test : B → List Action → Bool) (b a : B) (done : List Action)
    → test b done ≡ true
    → returned b ≡ returned a
    → test a done ≡ true
unfolding value_in
returned-Ensures {B = B} test b a done t e =
    ap (λ (x : B). test x done) (sym (ap (value_in b) e)) ∙ t

-- A probe that answers the question, or else another script.
pub if_returned-Ensures {ℓ} :
    {B : Type ℓ} (test : List Action → Bool) (value : B) (s : Script Bool) (n : Script B)
    (result : B → List Action → Bool)
    → ((done : List Action) → test done ≡ true → result value done ≡ true)
    → Ensures (λ b done. not b || test done) s
    → Ensures result n
    → Ensures result (s >>= λ b. if b then pure value else n)
unfolding Ensures EnsuresAfter pure
if_returned-Ensures {B = B} test value s n result given probe rest =
    bind-EnsuresAfter (λ b done. not b || test done) result s (λ b. if b then pure value else n)
      probe branch
  where
    branch :
        (b : Bool) (h : Host) (a : B)
        → (not b || test h.done) ≡ true
        → ((if b then pure value else n) h).0 ≡ returned a
        → result a (((if b then pure value else n) h).1).done ≡ true
    branch true h a t e = returned-Ensures result value a h.done (given h.done t) e
    branch false h a t e = rest h a e
