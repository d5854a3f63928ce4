-- ===== src/Api/Bodies/Normal.antt =====
-- What a body holds that src/g_one/schemas.py accepted.
use mathlib.Core.Path.{subst}
use project_g_one.Prelude.{
  ◌≡◌, refl, sym, ap, ◌∙◌, ℕ, ◌≤◌, String, ◌&&◌, Option, none, some, leb, length, arith,
}
use project_g_one.Text.{strip}
use project_g_one.Text.Trimmed.{strip_idem, length-strip}
use project_g_one.Settings.Environment.{text_length}
use project_g_one.Api.Support.{SupportRequestCreate}
use project_g_one.Api.Bodies.{
  is_between, has_length, normal_text, normal_purpose, on_text, given, valid_support_request,
}

-- A text without spaces at its ends, with a length in the bounds.
pub record IsNormal (low high : ℕ) (s : String) : Type 0 where
  pub stripped : strip s ≡ s
  pub at_least : low ≤ text_length s
  pub at_most : text_length s ≤ high

normal_text-IsNormal :
    (low high : ℕ) (s t : String) → normal_text low high s ≡ some t → IsNormal low high t
unfolding normal_text has_length
normal_text-IsNormal low high s t e =
    let same : strip s ≡ t = ground (arith) in
    record {
      stripped = ap strip (sym same) ∙ strip_idem s ∙ same;
      at_least = ground (arith, same);
      at_most = ground (arith, same, length-strip s);
    }

-- The body of a request for support that is accepted: a purpose of 3 to 500 characters, a permission,
-- and a lifetime between one minute and fifteen.
pub record IsBounded (body : SupportRequestCreate) : Type 0 where
  pub purpose : IsNormal 3 500 body.purpose
  pub permissions : 1 ≤ length body.permissions
  pub lifetime_min : 60 ≤ body.lifetime_seconds
  pub lifetime_max : body.lifetime_seconds ≤ 900

bounded :
    (sent body : SupportRequestCreate) (purpose : String)
    → IsNormal 3 500 purpose
    → given
        (leb 1 (length sent.permissions) && is_between 60 900 sent.lifetime_seconds)
        (record sent { purpose = purpose })
      ≡ some body
    → IsBounded body
bounded sent body purpose n e =
    let same : record sent { purpose = purpose } ≡ body = ground (arith) in
    subst IsBounded same (record {
      purpose = n;
      permissions = ground (arith);
      lifetime_min = ground (arith);
      lifetime_max = ground (arith);
    })

-- A body that is accepted for a request for support is in its bounds: its purpose has 3 to 500 characters
-- and no space at its ends, there is a permission, and the lifetime is between 60 and 900 seconds.
pub valid_support_request-IsBounded :
    (sent body : SupportRequestCreate) → valid_support_request sent ≡ some body → IsBounded body
unfolding valid_support_request normal_purpose
valid_support_request-IsBounded sent body e = accepted (normal_text 3 500 sent.purpose) refl e
  where
    accepted :
        (o : Option String)
        → normal_text 3 500 sent.purpose ≡ o
        → on_text o (λ purpose.
          given
            (leb 1 (length sent.permissions) && is_between 60 900 sent.lifetime_seconds)
            (record sent { purpose = purpose }))
          ≡ some body
        → IsBounded body
    accepted none k e = cc
    accepted (some purpose) k e =
        bounded sent body purpose (normal_text-IsNormal 3 500 sent.purpose purpose k) e
