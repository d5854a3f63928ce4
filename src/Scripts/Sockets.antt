-- ===== src/Scripts/Sockets.antt =====
-- Who listens on a port, as /proc shows it: `listener_inodes` and the search for old processes of
-- scripts/host_port.py.
use Prim.Native.String.{◌++◌, slice}
use mathlib.Core.List.{◌++◌ as ◌+++◌}
use project_g_one.Prelude.{
  ◌≡◌, refl, ℕ, zero, suc, ◌+◌, ◌/◌, ◌%◌, String, Bool, ◌&&◌, ◌||◌, List, [], ◌∷◌, map, ◌==◌,
  Option, none, some, if◌then◌else◌, any, where_true,
}
use project_g_one.Text.Lines.{split_on}
use project_g_one.Text.Breaks.{splitlines}
use project_g_one.Scripts.Words.{split_words, has_part}
use project_g_one.Scripts.Machine.{Process}

-- The four lowest digits of `f"{port:04X}"`, which are all of them for a port.
unfoldable pub hex_digits : ℕ → ℕ → String
hex_digits zero n = ""
hex_digits (suc width) n =
    hex_digits width (n / 16) ++ slice "0123456789ABCDEF" (n % 16) (n % 16 + 1)

unfoldable pub nth : ℕ → List String → Option String
nth n [] = none
nth zero (x ∷ xs) = some x
nth (suc n) (x ∷ xs) = nth n xs

-- `parts[-1]` of parts that are not empty
unfoldable pub last_of : List String → String
last_of [] = ""
last_of (x ∷ []) = x
last_of (x ∷ y ∷ ys) = last_of (y ∷ ys)

-- The field with the state is read after the one with the address, the inode after both; none when a field is
-- missing.
unfoldable pub listening_inode : Option String → List String → Option (List String)
unfolding nth
listening_inode none fields = none
listening_inode (some state) fields =
    if state == "0A"
    then elim (nth 9 fields) [ none ↦ none | some inode ↦ some (inode ∷ []) ]
    else some []

unfoldable pub line_inodes : String → Option String → List String → Option (List String)
unfolding nth last_of split_on
line_inodes encoded_port none fields = none
line_inodes encoded_port (some address) fields =
    if last_of (split_on 58 address) == encoded_port
    then listening_inode (nth 3 fields) fields
    else some []

abbrev pub both_lists : Option (List String) → Option (List String) → Option (List String)
both_lists none ys = none
both_lists (some xs) none = none
both_lists (some xs) (some ys) = some (xs +++ ys)

unfoldable pub lines_inodes : String → List String → Option (List String)
unfolding nth split_words
lines_inodes encoded_port [] = some []
lines_inodes encoded_port (line ∷ lines) =
    let fields = split_words line in
    both_lists (line_inodes encoded_port (nth 1 fields) fields) (lines_inodes encoded_port lines)

abbrev pub without_header : List String → List String
without_header [] = []
without_header (line ∷ lines) = lines

-- The texts of the tables that are there.
unfoldable pub listener_inodes : ℕ → List String → Option (List String)
unfolding splitlines hex_digits
listener_inodes port [] = some []
listener_inodes port (text ∷ texts) =
    both_lists (lines_inodes (hex_digits 4 port) (without_header (splitlines text)))
      (listener_inodes port texts)

-- `os.readlink(descriptor) in {f"socket:[{inode}]" for inode in inodes}` for one of the links
unfoldable pub owns_listener : List String → Process → Bool
owns_listener inodes p =
    any (λ link. any (λ inode. link == "socket:[" ++ (inode ++ "]")) inodes) p.links

abbrev pub is_legacy : String → Process → Bool
is_legacy root p =
    has_part "g_one.main:app" p.command && has_part "uvicorn" p.command
    || (p.directory == root) && has_part "uvicorn" p.command

-- The identifiers of the processes; `if not inodes: return matches` first.
unfoldable pub legacy_owners : String → List String → List Process → List ℕ
unfolding owns_listener
legacy_owners root [] processes = []
legacy_owners root (i ∷ inodes) processes =
    map (λ p. p.process_id)
      (where_true (λ p. owns_listener (i ∷ inodes) p && is_legacy root p) processes)

listener_inodes_8000 :
    listener_inodes 8000 (
      "  sl  local_address rem_address   st tx_queue rx_queue tr tm->when retrnsmt   uid  timeout inode\n   0: 0100007F:1F40 00000000:0000 0A 00000000:00000000 00:00000000 00000000  1000        0 7777 1\n"
      ∷ [])
    ≡ some ("7777" ∷ [])
unfolding listener_inodes lines_inodes line_inodes listening_inode
listener_inodes_8000 = refl
