-- ===== src/Scripts/Database/Literal.antt =====
-- What MariaDB reads from the literals of scripts/sync_database_credentials.py, in its default mode, where
-- a backslash escapes the character behind it.
use Prim.Native.Char.{Char, code}
use Prim.Native.String as Native
use Prim.Native.String.{◌++◌}
use Prim.Native.String.append
use text.Mathlib.TextEquality.{Char-path}
use text.Mathlib.TextLemmas.{append_assoc}
use project_g_one.Prelude.{
  ◌≡◌, refl, sym, ap, ◌∙◌, String, Bool, true, false, Option, none, some, nat_eq, arith,
  if◌then◌else◌,
}
use project_g_one.Scripts.Database.{replace_code, sql_string}

-- What an escape stands for: a control character, or the character itself.
escaped_text : Char → String
escaped_text c =
    if nat_eq (code c) 110
    then "\n"
    else if nat_eq (code c) 114
    then "\r"
    else if nat_eq (code c) 116
    then "\t"
    else if nat_eq (code c) 48
    then "\0"
    else if nat_eq (code c) 98
    then "\u{8}"
    else if nat_eq (code c) 90
    then "\u{1a}"
    else Native.◌∷◌ c Native.[]

in_front : String → Option (String × String) → Option (String × String)
in_front t none = none
in_front t (some (value, rest)) = some (t ++ value, rest)

-- The body of a literal behind its first quote, and the text behind its last one: two quotes stand for
-- one.
read_body : String → Option (String × String)
unfolding in_front escaped_text
read_body Native.[] = none
read_body (Native.◌∷◌ c Native.[]) = if nat_eq (code c) 39 then some ("", "") else none
read_body (Native.◌∷◌ c (Native.◌∷◌ d s)) =
    let pair = read_body s in
    let rest = read_body (Native.◌∷◌ d s) in
    if nat_eq (code c) 39
    then (if nat_eq (code d) 39 then in_front "'" pair else some ("", Native.◌∷◌ d s))
    else if nat_eq (code c) 92
    then in_front (escaped_text d) pair
    else in_front (Native.◌∷◌ c Native.[]) rest

unfoldable pub read_literal : String → Option (String × String)
unfolding read_body
read_literal Native.[] = none
read_literal (Native.◌∷◌ c s) = if nat_eq (code c) 39 then read_body s else none

read_example : read_literal "'a''b\\\\c';" ≡ some ("a'b\\c", ";")
unfolding read_literal
read_example = refl

unfoldable pub starts_quote : String → Bool
starts_quote Native.[] = false
starts_quote (Native.◌∷◌ c s) = nat_eq (code c) 39

-- Both replacements, a character at a time.
escape : String → String
escape Native.[] = Native.[]
escape (Native.◌∷◌ c s) =
    let rest = escape s in
    if nat_eq (code c) 92
    then Native.◌∷◌ "\\" (Native.◌∷◌ "\\" rest)
    else if nat_eq (code c) 39
    then Native.◌∷◌ "'" (Native.◌∷◌ "'" rest)
    else Native.◌∷◌ c rest

two :
    (c d : Char) (s : String)
    → Native.◌∷◌ c (Native.◌∷◌ d Native.[]) ++ s ≡ Native.◌∷◌ c (Native.◌∷◌ d s)
two c d s =
    append.cons c (Native.◌∷◌ d Native.[]) s
    ∙ ap (Native.◌∷◌ c) (append.cons d Native.[] s ∙ ap (Native.◌∷◌ d) (append.nil s))

replace-escape : (s : String) → replace_code 39 "''" (replace_code 92 "\\\\" s) ≡ escape s
unfolding replace_code escape
replace-escape Native.[] = refl
replace-escape (Native.◌∷◌ c s) = split (nat_eq (code c) 92) (nat_eq (code c) 39) (replace-escape s)
  where
    inner : String
    inner = replace_code 92 "\\\\" s

    split :
        (b q : Bool)
        → replace_code 39 "''" inner ≡ escape s
        → replace_code 39 "''" (if b then "\\\\" ++ inner else Native.◌∷◌ c inner) ≡ (
            if b
            then Native.◌∷◌ "\\" (Native.◌∷◌ "\\" (escape s))
            else if nat_eq (code c) 39
            then Native.◌∷◌ "'" (Native.◌∷◌ "'" (escape s))
            else Native.◌∷◌ c (escape s))
    split true q ih =
        ap (replace_code 39 "''") (two "\\" "\\" inner)
        ∙ ap (λ (t : String). Native.◌∷◌ "\\" (Native.◌∷◌ "\\" t)) ih
    split false q ih =
        ap (λ (t : String). if nat_eq (code c) 39 then "''" ++ t else Native.◌∷◌ c t) ih
        ∙ ap (λ (t : String). if nat_eq (code c) 39 then t else Native.◌∷◌ c (escape s))
            (two "'" "'" (escape s))

char_of : (c d : Char) → nat_eq (code c) (code d) ≡ true → c ≡ d
char_of c d h = Char-path c d (ground (arith))

quote_rest : (rest : String) → "'" ++ rest ≡ Native.◌∷◌ "'" rest
quote_rest rest = append.cons "'" "" rest ∙ ap (Native.◌∷◌ "'") (append.nil rest)

read_end :
    (rest : String) → starts_quote rest ≡ false → read_body (Native.◌∷◌ "'" rest) ≡ some ("", rest)
unfolding read_body starts_quote
read_end Native.[] h = refl
read_end (Native.◌∷◌ d s) h = ground (arith)

read_plain :
    (c : Char) (t : String)
    → nat_eq (code c) 39 ≡ false
    → nat_eq (code c) 92 ≡ false
    → (t ≡ Native.[] → ⊥)
    → read_body (Native.◌∷◌ c t) ≡ in_front (Native.◌∷◌ c Native.[]) (read_body t)
unfolding read_body
read_plain c Native.[] q b ne = absurd (ne refl)
read_plain c (Native.◌∷◌ d s) q b ne = ground (arith)

-- One character of the value in front of what is read.
read_step :
    (c : Char) (s t rest : String) (a b : Bool)
    → nat_eq (code c) 92 ≡ a
    → nat_eq (code c) 39 ≡ b
    → (t ≡ Native.[] → ⊥)
    → read_body t ≡ some (s, rest)
    → read_body (
        if a
        then Native.◌∷◌ "\\" (Native.◌∷◌ "\\" t)
        else if b
        then Native.◌∷◌ "'" (Native.◌∷◌ "'" t)
        else Native.◌∷◌ c t)
      ≡ some (Native.◌∷◌ c s, rest)
unfolding read_body in_front escaped_text
read_step c s t rest true b e f ne ih =
    ap (in_front "\\") ih
    ∙ ap (λ (v : String). some (v, rest))
        (append.cons "\\" "" s ∙ ap (Native.◌∷◌ "\\") (append.nil s))
    ∙ ap (λ (d : Char). some (Native.◌∷◌ d s, rest)) (sym (char_of c "\\" e))
read_step c s t rest false true e f ne ih =
    ap (in_front "'") ih
    ∙ ap (λ (v : String). some (v, rest)) (quote_rest s)
    ∙ ap (λ (d : Char). some (Native.◌∷◌ d s, rest)) (sym (char_of c "'" f))
read_step c s t rest false false e f ne ih =
    read_plain c t f e ne
    ∙ ap (in_front (Native.◌∷◌ c Native.[])) ih
    ∙ ap (λ (v : String). some (v, rest))
        (append.cons c Native.[] s ∙ ap (Native.◌∷◌ c) (append.nil s))

-- A text behind the escaped value.
escape-append :
    (c : Char) (x t : String) (a b : Bool)
    → (if a
          then Native.◌∷◌ "\\" (Native.◌∷◌ "\\" x)
          else if b
          then Native.◌∷◌ "'" (Native.◌∷◌ "'" x)
          else Native.◌∷◌ c x)
        ++ t
      ≡ (if a
          then Native.◌∷◌ "\\" (Native.◌∷◌ "\\" (x ++ t))
          else if b
          then Native.◌∷◌ "'" (Native.◌∷◌ "'" (x ++ t))
          else Native.◌∷◌ c (x ++ t))
escape-append c x t true b =
    append.cons "\\" (Native.◌∷◌ "\\" x) t ∙ ap (Native.◌∷◌ "\\") (append.cons "\\" x t)
escape-append c x t false true =
    append.cons "'" (Native.◌∷◌ "'" x) t ∙ ap (Native.◌∷◌ "'") (append.cons "'" x t)
escape-append c x t false false = append.cons c x t

append_nonempty : (s rest : String) → s ++ ("'" ++ rest) ≡ Native.[] → ⊥
append_nonempty Native.[] rest e =
    let p : Native.◌∷◌ "'" rest ≡ Native.[] =
      sym (append.nil ("'" ++ rest) ∙ quote_rest rest) ∙ e in
    cc
append_nonempty (Native.◌∷◌ c s) rest e =
    let p : Native.◌∷◌ c (s ++ ("'" ++ rest)) ≡ Native.[] =
      sym (append.cons c s ("'" ++ rest)) ∙ e in
    cc

read-escape :
    (v rest : String)
    → starts_quote rest ≡ false
    → read_body (escape v ++ ("'" ++ rest)) ≡ some (v, rest)
unfolding escape
read-escape Native.[] rest h =
    ap read_body (append.nil ("'" ++ rest) ∙ quote_rest rest) ∙ read_end rest h
read-escape (Native.◌∷◌ c s) rest h =
    ap read_body
      (escape-append c (escape s) ("'" ++ rest) (nat_eq (code c) 92) (nat_eq (code c) 39))
    ∙ read_step c s (escape s ++ ("'" ++ rest)) rest (nat_eq (code c) 92) (nat_eq (code c) 39) refl
        refl (append_nonempty (escape s) rest) (read-escape s rest h)

-- A literal reads back as the value that was written, whatever quotes and backslashes it holds, and ends
-- where it was ended, unless a quote follows it.
pub read_literal-sql_string :
    (value rest : String)
    → starts_quote rest ≡ false
    → read_literal (sql_string value ++ rest) ≡ some (value, rest)
unfolding read_literal sql_string
read_literal-sql_string value rest h =
    ap (λ (t : String). read_literal (("'" ++ (t ++ "'")) ++ rest)) (replace-escape value)
    ∙ ap read_literal
        (append_assoc "'" (escape value ++ "'") rest ∙ quote_rest ((escape value ++ "'") ++ rest))
    ∙ ap read_body (append_assoc (escape value) "'" rest)
    ∙ read-escape value rest h
