-- ===== src/Auth/Json.antt =====
-- JSON values as `json.loads` gives them: what the program reads of a token.
use project_g_one.Prelude.{
  ℕ, String, Bool, true, false, ◌||◌, List, [], ◌∷◌, ◌==◌, Option, none, some, if◌then◌else◌, suc,
}

mutual
  -- `decimal n` is a float of n millionths, `negative n` is -(n + 1).
  pub data Json : Type 0 where
    null : Json
    boolean : Bool → Json
    integer : ℕ → Json
    negative : ℕ → Json
    decimal : ℕ → Json
    string : String → Json
    array : Items → Json
    object : Fields → Json

  pub data Items : Type 0 where
    nil : Items
    cons : Json → Items → Items

  pub data Fields : Type 0 where
    end : Fields
    field : String → Json → Fields → Fields

abbrev pub member : String → Fields → Option Json
member k end = none
member k (field j v rest) = if j == k then some v else member k rest

abbrev pub has_member : Fields → String → Bool
has_member f k = elim (member k f) [ none ↦ false | some v ↦ true ]

abbrev pub fields_count : Fields → ℕ
fields_count end = 0
fields_count (field k v rest) = suc (fields_count rest)

-- `value == text`
abbrev pub is_text : String → Option Json → Bool
is_text s (some (string t)) = t == s
is_text s _ = false

-- The text is an item.
abbrev pub has_item : Items → String → Bool
has_item nil s = false
has_item (cons v rest) s = is_text s (some v) || has_item rest s

-- A list of texts, if all items are.
abbrev pub cons_text : Json → Option (List String) → Option (List String)
cons_text (string s) (some ss) = some (s ∷ ss)
cons_text _ _ = none

abbrev pub all_texts : Items → Option (List String)
all_texts nil = some []
all_texts (cons v rest) = cons_text v (all_texts rest)

-- `list` of texts as a JSON array
abbrev pub of_texts : List String → Items
of_texts [] = nil
of_texts (s ∷ ss) = cons (string s) (of_texts ss)
