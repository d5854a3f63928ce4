-- ===== src/Api/Download/Target.antt =====
-- Whom a bundle is for: `download_client_deployment` of src/g_one/api.py.
use project_g_one.Prelude.{
  ◌≡◌, refl, String, true, ◌&&◌, ◌⊎◌, Option, none, some, ◌==◌, contains, arith, [], ◌∷◌, ◌++◌,
  eq_iff, find_first,
}
use project_g_one.Outside.{Outside}
use project_g_one.Models.{ClientDeploymentProfile, ClientEnrollmentCode}
use project_g_one.Models.Tables.{Kind, Database, with_table}
use project_g_one.Auth.{Principal, has_role}
use project_g_one.Session.{
  returned, ◌>>=◌, start, run_request, pure, raise_if, insert, select_or, select_all, commit, read,
}
use project_g_one.Api.Audit.{audit}
use project_g_one.Api.Download.{Manifest, target_of, download_client_deployment}

module _ (o : Outside) (p : Principal) (db : Database) where
  -- The enabled profile with the id, among the tenant's.
  abbrev pub stored_profile : String → Option ClientDeploymentProfile
  stored_profile id =
      find_first (λ d. d.id == id && (d.tenant_id == p.tenant_id && d.enabled))
        (db.rows Kind.profiles)

  -- The bundle is that of the stored profile, for one of its targets, who is the principal if that is no
  -- administrator of the tenant.
  abbrev pub IsAssigned : String → Manifest → Type 0
  IsAssigned id manifest =
      (profile : ClientDeploymentProfile) × (stored_profile id ≡ some profile)
      × (contains manifest.target_subject profile.target_subjects ≡ true)
      × ((manifest.target_subject ≡ p.subject) ⊎ (has_role p "tenant_admin" ≡ true))
      × (manifest.tenant_id ≡ p.tenant_id)
      × (manifest.profile_id ≡ profile.id)

  -- The database has one enrollment code more: that of the bundle, as a hash, for its subject, profile and
  -- tenant, until the time in the bundle, and not used.
  abbrev pub IsIssued : Manifest → Database → Type 0
  IsIssued manifest after =
      (code : ClientEnrollmentCode) × (after.rows Kind.enrollment_codes
        ≡ db.rows Kind.enrollment_codes ++ code ∷ [])
      × (code.token_hash ≡ o.sha256_hex manifest.enrollment_code)
      × (code.subject ≡ manifest.target_subject)
      × (code.profile_id ≡ manifest.profile_id)
      × (code.tenant_id ≡ p.tenant_id)
      × (code.expires_at ≡ manifest.expires_at)
      × (code.used_at ≡ none)

  -- The code of a bundle that was given.
  abbrev issued_code : Manifest → ClientEnrollmentCode
  issued_code manifest = record {
    id = o.uuid4 3;
    tenant_id = p.tenant_id;
    profile_id = manifest.profile_id;
    subject = manifest.target_subject;
    token_hash = o.sha256_hex manifest.enrollment_code;
    expires_at = manifest.expires_at;
    created_by = p.subject;
    created_at = o.clock 4;
    used_at = none;
  }

  bundle-IsIssued :
      (id : String) (subject : Option String) (base_url : String) (manifest : Manifest)
      → (run_request (download_client_deployment o p id subject base_url) db).0 ≡ returned manifest
      → IsIssued manifest (run_request (download_client_deployment o p id subject base_url) db).1
  unfolding run_request start download_client_deployment ◌>>=◌ raise_if pure insert commit read
      audit select_or select_all with_table
  bundle-IsIssued id subject base_url manifest h =
      (issued_code manifest, ground (arith), refl, refl, refl, refl, refl, refl)

  bundle-IsAssigned :
      (id : String) (subject : Option String) (base_url : String) (manifest : Manifest)
      → (run_request (download_client_deployment o p id subject base_url) db).0 ≡ returned manifest
      → IsAssigned id manifest
  unfolding run_request start download_client_deployment ◌>>=◌ raise_if pure insert commit read
      audit select_or select_all
  bundle-IsAssigned id subject base_url manifest h = assigned (stored_profile id) refl
    where
      assigned :
          (found : Option ClientDeploymentProfile)
          → stored_profile id ≡ found
          → IsAssigned id manifest
      assigned none e = ground (arith)
      assigned (some profile) e = (
        profile,
        e,
        ground (arith),
        ground (arith, eq_iff (target_of p subject) p.subject),
        ground (arith),
        ground (arith),
      )

  -- A bundle is given only for an enabled profile of the tenant and for a subject that the profile is
  -- assigned to; for a subject other than itself, only to an administrator. With it the database gets
  -- one enrollment code, the hash of the one in the bundle, for that subject, profile and tenant.
  pub download_client_deployment-IsAssigned :
      (id : String) (subject : Option String) (base_url : String) (manifest : Manifest)
      → (run_request (download_client_deployment o p id subject base_url) db).0 ≡ returned manifest
      → IsAssigned id manifest
        × IsIssued manifest (run_request (download_client_deployment o p id subject base_url) db).1
  download_client_deployment-IsAssigned id subject base_url manifest h = (
    bundle-IsAssigned id subject base_url manifest h,
    bundle-IsIssued id subject base_url manifest h,
  )
