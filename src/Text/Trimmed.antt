-- ===== src/Text/Trimmed.antt =====
-- A text that was stripped: it stays, and it is not longer.
use Prim.Native.String as Native
use project_g_one.Prelude.{
  ◌≡◌, refl, ap, ◌∙◌, ◌+◌, ◌≤◌, String, Bool, true, false, ◌&&◌, if◌then◌else◌, arith,
}
use project_g_one.Text.{is_space, is_empty, lstrip, rstrip, strip}
use project_g_one.Text.Strip.{rstrip_idem, lstrip-rstrip}
use project_g_one.Settings.Environment.{text_length}

lstrip_idem : (s : String) → lstrip (lstrip s) ≡ lstrip s
unfolding lstrip
lstrip_idem Native.[] = refl
lstrip_idem (Native.◌∷◌ c s) = ground (arith, lstrip_idem s)

pub strip_idem : (s : String) → strip (strip s) ≡ strip s
unfolding strip
strip_idem s =
    ap rstrip (lstrip-rstrip (lstrip s) ∙ ap rstrip (lstrip_idem s)) ∙ rstrip_idem (lstrip s)

length-lstrip : (s : String) → text_length (lstrip s) ≤ text_length s
unfolding lstrip text_length
length-lstrip Native.[] = omega arith
length-lstrip (Native.◌∷◌ c s) = ground (arith, length-lstrip s)

length-rstrip : (s : String) → text_length (rstrip s) ≤ text_length s
unfolding rstrip text_length
length-rstrip Native.[] = omega arith
length-rstrip (Native.◌∷◌ c s) = trimmed (is_space c && is_empty (rstrip s)) (length-rstrip s)
  where
    trimmed :
        (b : Bool)
        → text_length (rstrip s) ≤ text_length s
        → text_length (if b then Native.[] else Native.◌∷◌ c (rstrip s)) ≤ 1 + text_length s
    trimmed true h = omega arith
    trimmed false h = omega arith

pub length-strip : (s : String) → text_length (strip s) ≤ text_length s
unfolding strip
length-strip s = ground (arith, length-rstrip (lstrip s), length-lstrip s)
