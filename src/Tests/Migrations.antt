-- ===== src/Tests/Migrations.antt =====
-- The theorems on src/g_one/alembic/versions, at a new database and at one of an earlier release.
use project_g_one.Prelude.{
  ◌≡◌, refl, inr, true, false, none, some, [], ◌∷◌, if◌then◌else◌, ◌==◌, String, Option,
}
use project_g_one.Session.{raised, http, run_request}
use project_g_one.Api.Sessions.{create_initial_administrator}
use project_g_one.Requests.{serve}
use project_g_one.Models.Tables.{Database}
use project_g_one.Migrations.Tables.{Table, is_own}
use project_g_one.Migrations.Alembic.{View, apply}
use project_g_one.Migrations.Running.{Alembic, Leads, run_on}
use project_g_one.Migrations.Metadata.{metadata}
use project_g_one.Migrations.Schema.{start, Holds}
use project_g_one.Migrations.Outcome.{IsCurrent}
use project_g_one.Migrations.Versions.{upgrade_head}
use project_g_one.Migrations.Roundtrip.{upgrade_head-up_to_date}
use project_g_one.Migrations.Takeover.{upgraded-refused}
use project_g_one.Tests.Samples.{
  sample_outside, sample_codec, sample_settings, sample_setup, sample_database, sample_request,
}

-- A database that is what the inspector sees of it.
abbrev memory : Alembic
memory = record {
  Store = View;
  view = λ v. v;
  run_operation = apply;
  run_operation-apply = λ o d v h. (v, (h, refl));
}

abbrev other_tables : String → Option Table
other_tables j =
    if "spatial_ref_sys" == j
    then some (record { columns = []; unique = []; foreign_keys = []; indexes = [] })
    else none

-- A table of another program, and no table of this one.
abbrev fresh : View
fresh = start [] other_tables none false

-- A release that made its tables with `create_all`, with an account.
abbrev early : View
early = start metadata other_tables none true

early-Holds : Holds metadata early
unfolding Holds
early-Holds = (λ j h. rw h refl, refl, refl)

upgrade_head-up_to_date_example :
    (d' : View) × ((run_on memory upgrade_head early ≡ some d')
      × (IsCurrent d'
          × (((j : String) → is_own j ≡ false → d'.tables j ≡ early.tables j)
              × Leads (λ v. v) (run_on memory upgrade_head d') d')))
upgrade_head-up_to_date_example = upgrade_head-up_to_date memory early (inr early-Holds)

-- The rows of a server that an administrator of an earlier release left.
abbrev rows : View → Database
rows v = record sample_database { initialized = v.installation }

upgraded-refused_example :
    (d' : View) × ((run_on memory upgrade_head early ≡ some d')
      × (run_request
            (create_initial_administrator sample_outside sample_codec sample_settings sample_setup)
            (serve sample_settings (sample_request ∷ []) (rows d'))
          ≡ (
            raised (http 409 "administrator has already been configured"),
            serve sample_settings (sample_request ∷ []) (rows d'),
          )))
upgraded-refused_example =
    upgraded-refused memory rows (λ d. refl) sample_outside sample_codec sample_settings
      sample_setup (sample_request ∷ []) early (inr early-Holds) refl
