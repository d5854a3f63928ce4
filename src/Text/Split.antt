-- ===== src/Text/Split.antt =====
-- `str.split(separator, n)` on a text that is put together.
use Prim.Native.Char.{Char, code}
use Prim.Native.String as Native
use Prim.Native.String.{◌++◌}
use Prim.Native.String.append
use project_g_one.Prelude.{
  ◌≡◌, refl, ap, ◌∙◌, ℕ, suc, String, Bool, true, false, ◌||◌, [], ◌∷◌, nat_eq, arith,
}
use project_g_one.Text.Lines.{split_max}

-- A character with the code is in the text.
unfoldable pub has_code : ℕ → String → Bool
has_code sep Native.[] = false
has_code sep (Native.◌∷◌ c s) = nat_eq (code c) sep || has_code sep s

nat_eq_refl : (n : ℕ) → nat_eq n n ≡ true
nat_eq_refl n = ground (arith)

pub split_max-append :
    (d : Char) (n : ℕ) (a rest : String)
    → has_code (code d) a ≡ false
    → split_max (suc n) (code d) (a ++ (Native.◌∷◌ d Native.[] ++ rest))
      ≡ a ∷ split_max n (code d) rest
unfolding split_max has_code
split_max-append d n Native.[] rest h =
    ap (split_max (suc n) (code d)) (
      append.nil (Native.◌∷◌ d Native.[] ++ rest)
      ∙ append.cons d Native.[] rest
      ∙ ap (Native.◌∷◌ d) (append.nil rest))
    ∙ ground (arith, nat_eq_refl (code d))
split_max-append d n (Native.◌∷◌ c s) rest h =
    ap (split_max (suc n) (code d)) (append.cons c s (Native.◌∷◌ d Native.[] ++ rest))
    ∙ ground (arith, split_max-append d n s rest)

pub split_max-none : (sep : ℕ) (s : String) → split_max 0 sep s ≡ s ∷ []
unfolding split_max
split_max-none sep Native.[] = refl
split_max-none sep (Native.◌∷◌ c s) = refl
