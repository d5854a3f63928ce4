-- ===== src/Text/Strip.antt =====
-- `str.strip` on a text with something in front.
use Prim.Native.Char.{Char}
use Prim.Native.String as Native
use Prim.Native.String.{◌++◌}
use Prim.Native.String.append
use project_g_one.Prelude.{
  ◌≡◌, refl, sym, ap, ◌∙◌, String, Bool, true, false, not, ◌&&◌, if◌then◌else◌, arith,
}
use project_g_one.Text.{is_space, is_empty, lstrip, rstrip, strip}

pub rstrip_idem : (s : String) → rstrip (rstrip s) ≡ rstrip s
unfolding rstrip is_empty
rstrip_idem Native.[] = refl
rstrip_idem (Native.◌∷◌ c s) = ground (arith, rstrip_idem s)

pub lstrip-rstrip : (s : String) → lstrip (rstrip s) ≡ rstrip (lstrip s)
unfolding rstrip lstrip is_empty
lstrip-rstrip Native.[] = refl
lstrip-rstrip (Native.◌∷◌ c s) = ground (arith, lstrip-rstrip s)

is_empty-append : (s t : String) → is_empty t ≡ false → is_empty (s ++ t) ≡ false
unfolding is_empty
is_empty-append Native.[] t h = ap is_empty (append.nil t) ∙ h
is_empty-append (Native.◌∷◌ c s) t h = ap is_empty (append.cons c s t)

kept :
    (c : Char) (x : String)
    → is_empty x ≡ false
    → (if is_space c && is_empty x then Native.[] else Native.◌∷◌ c x) ≡ Native.◌∷◌ c x
kept c x h = ground (arith)

-- What stands behind a text is stripped on its right only, where it does not vanish.
pub rstrip-append : (s t : String) → is_empty (rstrip t) ≡ false → rstrip (s ++ t) ≡ s ++ rstrip t
unfolding rstrip
rstrip-append Native.[] t h = ap rstrip (append.nil t) ∙ sym (append.nil (rstrip t))
rstrip-append (Native.◌∷◌ c s) t h =
    let ih = rstrip-append s t h in
    ap rstrip (append.cons c s t)
    ∙ kept c (rstrip (s ++ t)) (ap is_empty ih ∙ is_empty-append s (rstrip t) h)
    ∙ ap (Native.◌∷◌ c) ih
    ∙ sym (append.cons c s (rstrip t))

-- The first character, if there is one, is no space.
unfoldable pub starts_plain : String → Bool
starts_plain Native.[] = false
starts_plain (Native.◌∷◌ c s) = not (is_space c)

lstrip-append : (s t : String) → starts_plain s ≡ true → lstrip (s ++ t) ≡ s ++ t
unfolding lstrip starts_plain
lstrip-append Native.[] t h = cc
lstrip-append (Native.◌∷◌ c s) t h =
    ap lstrip (append.cons c s t) ∙ ground (arith, append.cons c s t)

-- A text that starts plainly keeps its front under `strip`.
pub strip-append :
    (s t : String)
    → starts_plain s ≡ true
    → is_empty (rstrip t) ≡ false
    → strip (s ++ t) ≡ s ++ rstrip t
unfolding strip
strip-append s t plain h = ap rstrip (lstrip-append s t plain) ∙ rstrip-append s t h

pub strip-rstrip : (s : String) → strip (rstrip s) ≡ strip s
unfolding strip
strip-rstrip s = ap rstrip (lstrip-rstrip s) ∙ rstrip_idem (lstrip s)

pub rstrip-cons :
    (c : Char) (s : String) → is_space c ≡ false → rstrip (Native.◌∷◌ c s) ≡ Native.◌∷◌ c (rstrip s)
unfolding rstrip
rstrip-cons c s h = ground (arith)
