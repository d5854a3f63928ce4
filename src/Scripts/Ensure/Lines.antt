-- ===== src/Scripts/Ensure/Lines.antt =====
-- The lines of the text with the missing settings behind it: `ensure_environment` of
-- scripts/ensure_compose_env.py.
use Prim.Native.Char.{Char, code}
use Prim.Native.String as Native
use Prim.Native.String.{◌++◌}
use Prim.Native.String.append
use mathlib.Core.List as List
use mathlib.Core.List.{◌++◌ as ◌+++◌}
use text.Mathlib.TextLemmas.{append_assoc}
use project_g_one.Prelude.{
  ◌≡◌, ◌≢◌, ◌⊎◌, inl, inr, refl, sym, ap, ◌∙◌, String, Bool, true, false, List, [], ◌∷◌, nat_eq,
  if◌then◌else◌, arith,
}
use project_g_one.Text.{is_empty}
use project_g_one.Text.Lines.{join, add_to_first}
use project_g_one.Text.Breaks.{is_break, splitlines, AllLines}
use project_g_one.Scripts.EnvFile.Update.{splitlines-join}
use project_g_one.Scripts.Ensure.{ends_with_newline, completed}

add_to_first-append :
    (c : Char) (ls ms : List String)
    → ls ≢ []
    → add_to_first c (ls +++ ms) ≡ add_to_first c ls +++ ms
unfolding add_to_first
add_to_first-append c [] ms h = absurd (h refl)
add_to_first-append c (l ∷ ls) ms h = refl

splitlines_nonempty : (s : String) → is_empty s ≡ false → splitlines s ≢ []
unfolding splitlines is_empty add_to_first
splitlines_nonempty Native.[] h e = cc
splitlines_nonempty (Native.◌∷◌ c s) h e = some_line (splitlines s) (is_break c) e
  where
    some_line : (ls : List String) (b : Bool) → (if b then "" ∷ ls else add_to_first c ls) ≢ []
    some_line ls true e = cc
    some_line [] false e = cc
    some_line (l ∷ ls) false e = cc

newline_break : (c : Char) → nat_eq (code c) 10 ≡ true → is_break c ≡ true
unfolding is_break
newline_break c h = ground (arith)

-- A text that ends with a newline is in front of its own lines.
splitlines-after_newline :
    (s t : String)
    → ends_with_newline s ≡ true
    → splitlines (s ++ t) ≡ splitlines s +++ splitlines t
unfolding splitlines ends_with_newline is_empty
splitlines-after_newline Native.[] t h = cc
splitlines-after_newline (Native.◌∷◌ c Native.[]) t h =
    ap splitlines (append.cons c Native.[] t ∙ ap (Native.◌∷◌ c) (append.nil t))
    ∙ ground (arith, newline_break c h)
splitlines-after_newline (Native.◌∷◌ c (Native.◌∷◌ d s)) t h =
    let ih = splitlines-after_newline (Native.◌∷◌ d s) t h in
    ap splitlines (append.cons c (Native.◌∷◌ d s) t)
    ∙ ap (λ (ls : List String). if is_break c then "" ∷ ls else add_to_first c ls) ih
    ∙ both (is_break c)
  where
    both :
        (b : Bool)
        → (if b
            then "" ∷ (splitlines (Native.◌∷◌ d s) +++ splitlines t)
            else add_to_first c (splitlines (Native.◌∷◌ d s) +++ splitlines t))
          ≡ (if b
              then "" ∷ splitlines (Native.◌∷◌ d s)
              else add_to_first c (splitlines (Native.◌∷◌ d s)))
            +++ splitlines t
    both true = refl
    both false =
        add_to_first-append c (splitlines (Native.◌∷◌ d s)) (splitlines t)
          (splitlines_nonempty (Native.◌∷◌ d s) refl)

-- The blank line that a newline adds to a text that does not end with one.
padding : String → List String
padding Native.[] = "" ∷ []
padding (Native.◌∷◌ c s) = if is_empty s then (if is_break c then "" ∷ [] else []) else padding s

splitlines-newline : (s : String) → splitlines (s ++ "\n") ≡ splitlines s +++ padding s
unfolding splitlines padding is_break is_empty add_to_first
splitlines-newline Native.[] = ap splitlines (append.nil "\n")
splitlines-newline (Native.◌∷◌ c Native.[]) =
    ap splitlines (append.cons c Native.[] "\n" ∙ ap (Native.◌∷◌ c) (append.nil "\n"))
    ∙ both (is_break c)
  where
    both :
        (b : Bool)
        → (if b then "" ∷ ("" ∷ []) else add_to_first c ("" ∷ []))
          ≡ (if b then "" ∷ [] else add_to_first c []) +++ (if b then "" ∷ [] else [])
    both true = refl
    both false = refl
splitlines-newline (Native.◌∷◌ c (Native.◌∷◌ d s)) =
    ap splitlines (append.cons c (Native.◌∷◌ d s) "\n")
    ∙ ap (λ (ls : List String). if is_break c then "" ∷ ls else add_to_first c ls)
        (splitlines-newline (Native.◌∷◌ d s))
    ∙ both (is_break c)
  where
    both :
        (b : Bool)
        → (if b
            then "" ∷ (splitlines (Native.◌∷◌ d s) +++ padding (Native.◌∷◌ d s))
            else add_to_first c (splitlines (Native.◌∷◌ d s) +++ padding (Native.◌∷◌ d s)))
          ≡ (if b
              then "" ∷ splitlines (Native.◌∷◌ d s)
              else add_to_first c (splitlines (Native.◌∷◌ d s)))
            +++ padding (Native.◌∷◌ d s)
    both true = refl
    both false =
        add_to_first-append c (splitlines (Native.◌∷◌ d s)) (padding (Native.◌∷◌ d s))
          (splitlines_nonempty (Native.◌∷◌ d s) refl)

ends-newline : (s : String) → ends_with_newline (s ++ "\n") ≡ true
unfolding ends_with_newline is_empty
ends-newline Native.[] = ap ends_with_newline (append.nil "\n")
ends-newline (Native.◌∷◌ c Native.[]) =
    ap ends_with_newline (append.cons c Native.[] "\n" ∙ ap (Native.◌∷◌ c) (append.nil "\n"))
ends-newline (Native.◌∷◌ c (Native.◌∷◌ d s)) =
    ap ends_with_newline
      (append.cons c (Native.◌∷◌ d s) "\n" ∙ ap (Native.◌∷◌ c) (append.cons d s "\n"))
    ∙ ap ends_with_newline (sym (append.cons d s "\n"))
    ∙ ends-newline (Native.◌∷◌ d s)

padding_blank : (s : String) → (padding s ≡ []) ⊎ (padding s ≡ "" ∷ [])
unfolding padding
padding_blank Native.[] = inr refl
padding_blank (Native.◌∷◌ c s) = ground (arith, padding_blank s)

-- The lines of a completed text are the old lines, perhaps a blank one, and the new lines.
pub completed_lines :
    (s line : String) (lines : List String)
    → AllLines (line ∷ lines)
    → (splitlines (completed s (line ∷ lines)) ≡ splitlines s +++ (line ∷ lines))
      ⊎ (splitlines (completed s (line ∷ lines)) ≡ splitlines s +++ ("" ∷ (line ∷ lines)))
unfolding is_empty splitlines
completed_lines Native.[] line lines h = inl (
    ap splitlines (
      append.nil ("" ++ (join "\n" (line ∷ lines) ++ "\n"))
      ∙ append.nil (join "\n" (line ∷ lines) ++ "\n"))
    ∙ splitlines-join line lines h)
completed_lines (Native.◌∷◌ c s) line lines h = ended (ends_with_newline (Native.◌∷◌ c s)) refl
  where
    rest : String
    rest = join "\n" (line ∷ lines) ++ "\n"

    broken :
        splitlines (Native.◌∷◌ c s ++ ("\n" ++ rest))
        ≡ splitlines (Native.◌∷◌ c s) +++ (padding (Native.◌∷◌ c s) +++ (line ∷ lines))
    broken =
        ap splitlines (sym (append_assoc (Native.◌∷◌ c s) "\n" rest))
        ∙ splitlines-after_newline (Native.◌∷◌ c s ++ "\n") rest (ends-newline (Native.◌∷◌ c s))
        ∙ ap (λ (ls : List String). ls +++ splitlines rest) (splitlines-newline (Native.◌∷◌ c s))
        ∙ ap (◌+++◌ (splitlines (Native.◌∷◌ c s) +++ padding (Native.◌∷◌ c s)))
            (splitlines-join line lines h)
        ∙ List.append_assoc (splitlines (Native.◌∷◌ c s)) (padding (Native.◌∷◌ c s)) (line ∷ lines)

    ended :
        (b : Bool)
        → ends_with_newline (Native.◌∷◌ c s) ≡ b
        → (splitlines (Native.◌∷◌ c s ++ ((if b then "" else "\n") ++ rest))
            ≡ splitlines (Native.◌∷◌ c s) +++ (line ∷ lines))
          ⊎ (splitlines (Native.◌∷◌ c s ++ ((if b then "" else "\n") ++ rest))
              ≡ splitlines (Native.◌∷◌ c s) +++ ("" ∷ (line ∷ lines)))
    ended true e = inl (
        ap (λ (t : String). splitlines (Native.◌∷◌ c s ++ t)) (append.nil rest)
        ∙ splitlines-after_newline (Native.◌∷◌ c s) rest e
        ∙ ap (◌+++◌ (splitlines (Native.◌∷◌ c s))) (splitlines-join line lines h))
    ended false e = elim (padding_blank (Native.◌∷◌ c s)) [
      | inl p ↦ inl (
          broken
          ∙ ap (◌+++◌ (splitlines (Native.◌∷◌ c s)))
              (ap (λ (ls : List String). ls +++ (line ∷ lines)) p))
      | inr p ↦ inr (
          broken
          ∙ ap (◌+++◌ (splitlines (Native.◌∷◌ c s)))
              (ap (λ (ls : List String). ls +++ (line ∷ lines)) p))
    ]
