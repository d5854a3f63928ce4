-- ===== src/Scripts/Ensure/Completed.antt =====
-- What a completed text assigns: `ensure_environment` of scripts/ensure_compose_env.py.
use mathlib.Core.List.{◌++◌ as ◌+++◌}
use project_g_one.Prelude.{
  ◌≡◌, inl, inr, refl, ap, ◌∙◌, String, ◌||◌, List, [], ◌∷◌, Option, none, some, arith, contains,
}
use project_g_one.Text.{strip}
use project_g_one.Text.Breaks.{splitlines, AllLines}
use project_g_one.Scripts.EnvFile.{assignment}
use project_g_one.Scripts.EnvFile.Lookup.{last_value, pick}
use project_g_one.Scripts.Ensure.{completed, keys_of, counted}
use project_g_one.Scripts.Ensure.Lines.{completed_lines}

last_value-append :
    (k : String) (ls ms : List String) (old : Option String)
    → last_value k (ls +++ ms) old ≡ last_value k ms (last_value k ls old)
unfolding last_value
last_value-append k [] ms old = refl
last_value-append k (l ∷ ls) ms old = last_value-append k ls ms (pick k (assignment (strip l)) old)

contains-counted :
    (k : String) (x : Option (String × String)) (a b c : List String)
    → contains k a ≡ (contains k b || contains k c)
    → contains k (counted x a) ≡ (contains k (counted x b) || contains k c)
contains-counted k none a b c h = h
contains-counted k (some (j, v)) a b c h = ground (arith)

contains-keys_of :
    (k : String) (ls ms : List String)
    → contains k (keys_of (ls +++ ms)) ≡ (contains k (keys_of ls) || contains k (keys_of ms))
unfolding keys_of
contains-keys_of k [] ms = refl
contains-keys_of k (l ∷ ls) ms =
    contains-counted k (assignment (strip l)) (keys_of (ls +++ ms)) (keys_of ls) (keys_of ms)
      (contains-keys_of k ls ms)

blank_line : assignment (strip "") ≡ none
unfolding strip assignment
blank_line = refl

-- A key reads from the completed text as the old lines and then the new ones say.
pub completed_value :
    (k s : String) (lines : List String) (old : Option String)
    → AllLines lines
    → last_value k (splitlines (completed s lines)) old
      ≡ last_value k lines (last_value k (splitlines s) old)
unfolding last_value
completed_value k s [] old h = refl
completed_value k s (line ∷ lines) old h = elim (completed_lines s line lines h) [
  | inl p ↦
      ap (λ (ls : List String). last_value k ls old) p
      ∙ last_value-append k (splitlines s) (line ∷ lines) old
  | inr p ↦
      ap (λ (ls : List String). last_value k ls old) p
      ∙ last_value-append k (splitlines s) ("" ∷ (line ∷ lines)) old
      ∙ ap
          (λ (x : Option (String × String)).
            last_value k (line ∷ lines) (pick k x (last_value k (splitlines s) old)))
          blank_line
]

-- A key is assigned in the completed text where it is in the old lines or in the new ones.
pub completed_keys :
    (k s : String) (lines : List String)
    → AllLines lines
    → contains k (keys_of (splitlines (completed s lines)))
      ≡ (contains k (keys_of (splitlines s)) || contains k (keys_of lines))
unfolding keys_of
completed_keys k s [] h = ground (arith)
completed_keys k s (line ∷ lines) h = elim (completed_lines s line lines h) [
  | inl p ↦
      ap (λ (ls : List String). contains k (keys_of ls)) p
      ∙ contains-keys_of k (splitlines s) (line ∷ lines)
  | inr p ↦
      ap (λ (ls : List String). contains k (keys_of ls)) p
      ∙ contains-keys_of k (splitlines s) ("" ∷ (line ∷ lines))
      ∙ ap
          (λ (x : Option (String × String)).
            contains k (keys_of (splitlines s)) || contains k (counted x (keys_of (line ∷ lines))))
          blank_line
]
