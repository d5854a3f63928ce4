-- ===== src/Scripts/Words.antt =====
-- What the scripts use of Python's `str` beside the server: `split`, `endswith`, `in` and `int`.
use Prim.Native.Char.{code}
use Prim.Native.String as Native
use Prim.Native.String.{◌++◌, slice}
use project_g_one.Prelude.{
  ◌≡◌, refl, ℕ, zero, suc, ◌+◌, ◌-◌, ◌*◌, ◌/◌, ◌%◌, ltb, String, Bool, true, false, ◌&&◌, ◌||◌,
  List, [], ◌∷◌, ◌==◌, Option, none, some, nat_eq, leb, if◌then◌else◌,
}
use project_g_one.Text.{is_space, strip}
use project_g_one.Text.Lines.{add_to_first}

unfoldable pub starts_space : String → Bool
unfolding is_space
starts_space Native.[] = true
starts_space (Native.◌∷◌ c s) = is_space c

-- `text.split()`
unfoldable pub split_words : String → List String
unfolding starts_space is_space add_to_first
split_words Native.[] = []
split_words (Native.◌∷◌ c s) =
    let rest = split_words s in
    if is_space c
    then rest
    else if starts_space s
    then Native.◌∷◌ c Native.[] ∷ rest
    else add_to_first c rest

split_words_example : split_words " ab c\n\nd" ≡ "ab" ∷ "c" ∷ "d" ∷ []
unfolding split_words
split_words_example = refl

unfoldable pub ends_with : String → String → Bool
ends_with suffix Native.[] = Native.[] == suffix
ends_with suffix (Native.◌∷◌ c s) = (Native.◌∷◌ c s == suffix) || ends_with suffix s

unfoldable pub starts_with : String → String → Bool
starts_with Native.[] s = true
starts_with (Native.◌∷◌ d t) Native.[] = false
starts_with (Native.◌∷◌ d t) (Native.◌∷◌ c s) = nat_eq (code c) (code d) && starts_with t s

-- `part in text`
unfoldable pub has_part : String → String → Bool
unfolding starts_with
has_part part Native.[] = starts_with part Native.[]
has_part part (Native.◌∷◌ c s) = starts_with part (Native.◌∷◌ c s) || has_part part s

has_part_example : has_part "main:app" "uvicorn g_one.main:app" ≡ true
unfolding has_part
has_part_example = refl

-- Digits, perhaps with single underscores between them; `after` says that a digit stands in front.
unfoldable pub digits : Bool → ℕ → String → Option ℕ
digits after n Native.[] = if after then some n else none
digits after n (Native.◌∷◌ c s) =
    let more = digits true (n * 10 + (code c - 48)) s in
    let skipped = digits false n s in
    if leb 48 (code c) && leb (code c) 57
    then more
    else if nat_eq (code c) 95 && after
    then skipped
    else none

-- A sign, which is true before a negative number, and a size.
unfoldable pub signed_int : String → Option (Bool × ℕ)
unfolding digits
signed_int Native.[] = none
signed_int (Native.◌∷◌ c s) =
    if nat_eq (code c) 45
    then with_sign true (digits false 0 s)
    else if nat_eq (code c) 43
    then with_sign false (digits false 0 s)
    else with_sign false (digits false 0 (Native.◌∷◌ c s))
  where
    with_sign : Bool → Option ℕ → Option (Bool × ℕ)
    with_sign negative none = none
    with_sign negative (some n) = some (negative, n)

-- `int(text)`; there is none where it raises ValueError.
unfoldable pub int_of : String → Option (Bool × ℕ)
unfolding strip signed_int
int_of s = signed_int (strip s)

int_of_example : int_of " 80_00\n" ≡ some (false, 8000)
unfolding int_of
int_of_example = refl

digit_text : ℕ → String
digit_text d = slice "0123456789" d (d + 1)

-- On fuel that counts the digits: a number has no more digits than its size and one.
decimal_digits : ℕ → ℕ → String
unfolding digit_text
decimal_digits zero n = ""
decimal_digits (suc fuel) n =
    let rest = decimal_digits fuel (n / 10) in
    if ltb n 10 then digit_text n else rest ++ digit_text (n % 10)

-- `str(n)`
unfoldable pub decimal : ℕ → String
unfolding decimal_digits
decimal n = decimal_digits (suc n) n

decimal_example : decimal 8000 ≡ "8000"
unfolding decimal
decimal_example = refl
