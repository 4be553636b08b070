-- ===== src/Tests/Services.antt =====
-- The theorems of Iam, Projects and Errors at sample states.
use absolo_cloud_services.Base.{
  Bool, head?, filter, if◌then◌else◌, [], ltb, ◌≤◌, String, ◌≡◌, refl, ◌⊎◌, true, false, none, some,
  ◌==◌, count, arith,
}
use absolo_cloud_services.Result.{ok, err, Error}
use absolo_cloud_services.Runtime.Action.{in_table, insert}
use absolo_cloud_services.Texts.{to_lower, decimal, split_at_dot}
use absolo_cloud_services.Tests.Concrete.{list_env}
use absolo_cloud_services.Tests.World.{user_named, world, signed_in}
use absolo_cloud_services.Runtime.Tables.Iam.{users, sessions}
use absolo_cloud_services.Schema.Projects.{Project}
use absolo_cloud_services.Iam.Users.{normalise}
use absolo_cloud_services.Iam.Sessions.{ResolvedSession, IssuedSession, resolve, revoke, issue}
use absolo_cloud_services.Iam.Sessions.Lifecycle.{is_proof, resolve_sound, revoke-resolve}
use absolo_cloud_services.Texts.Dots.{no_dot}
use absolo_cloud_services.Iam.Sessions.RoundTrip.{resolve-issue}
use absolo_cloud_services.Dates.{to_iso_string}
use absolo_cloud_services.Iam.Auth.{
  SignedIn, to_user, start_session, AuthenticatedUser, unauthenticated, can_activate, login,
}
use absolo_cloud_services.Iam.Auth.Access.{opens, login_sound, can_activate_private}
use absolo_cloud_services.Projects.{
  UpdateProjectRequest, CreateProjectRequest, is_alive, no_access, get_project, create_project,
  update_project, soft_delete_project,
}
use absolo_cloud_services.Projects.Isolation.{
  is_member, is_visible, project_isolation, get_project_found,
}
use absolo_cloud_services.Projects.Creation.{Stored, create_project_stores}
use absolo_cloud_services.Projects.Changes.{update_project_changes}
use absolo_cloud_services.Runtime.Tables.Projects.{projects}

abbrev ada_session : ResolvedSession
ada_session = record { session_id = "ses_1"; user_id = "usr_1" }

resolved : (resolve (some "ses_1.tok") world).0 ≡ ok (some ada_session)
unfolding resolve split_at_dot
resolved = refl

resolve_sound_example :
    (id : String) × (presented : String) × (split_at_dot "ses_1.tok" ≡ some (id, presented))
    × (1 ≤ count (is_proof ada_session presented 0) (in_table sessions world))
resolve_sound_example = resolve_sound "ses_1.tok" world {r = ada_session} resolved

split : split_at_dot "ses_1.tok" ≡ some ("ses_1", "tok")
unfolding split_at_dot
split = refl

revoke-resolve_example : (resolve (some "ses_1.tok") (revoke "ses_1" world).1).0 ≡ ok none
revoke-resolve_example = revoke-resolve "ses_1.tok" "ses_1" "tok" world split

abbrev issued : IssuedSession
issued = record { id = "ses_0"; expires_at = 2592002000; cookie_value = "ses_0.r1" }

abbrev signed : SignedIn
signed = record {
  user = to_user (user_named "usr_1" "ada@acme.io");
  expires_at = "1970-01-31T00:00:02.000Z";
  scopes = [];
  cookie_value = "ses_0.r1";
}

logged_in : (login "Ada@acme.io" "pw" none none world).0 ≡ ok signed
unfolding login start_session issue normalise decimal insert to_lower to_iso_string
logged_in = refl

login_sound_example : 1 ≤ count (opens "Ada@acme.io" "pw") (in_table users world)
login_sound_example = login_sound "Ada@acme.io" "pw" none none world {i = signed} logged_in

can_activate_private_example :
    ((user : AuthenticatedUser) × ((can_activate false (some "ses_1.tok") world).0
        ≡ ok (some user)))
    ⊎ ((can_activate false (some "ses_1.tok") world).0 ≡ err unauthenticated)
can_activate_private_example = can_activate_private (some "ses_1.tok") world

abbrev renaming : UpdateProjectRequest
renaming = record { name = some "Mine"; description = none; status = none }

project_isolation_example :
    (e : Error) × (get_project (signed_in "usr_2") "prj_1" world ≡ (err e, world))
    × (update_project (signed_in "usr_2") "prj_1" renaming world ≡ (err e, world))
    × (soft_delete_project (signed_in "usr_2") "prj_1" world ≡ (err e, world))
project_isolation_example = project_isolation (signed_in "usr_2") world "prj_1" renaming refl

get_project_found_example :
    (row : Project) × (head?
        (filter (is_visible (signed_in "usr_1") world "prj_1") (in_table projects world))
      ≡ some row)
    × (get_project (signed_in "usr_1") "prj_1" world ≡ (
      ok (record {
        id = "prj_1";
        org_id = row.org_id;
        slug = row.slug;
        name = row.name;
        description = row.description;
        kind = row.kind;
        status = row.status;
        region = row.region;
        created_at = row.created_at;
        updated_at = row.updated_at;
      }),
      world,
    ))
get_project_found_example =
    get_project_found (signed_in "usr_1") world "prj_1" (omega arith) (omega arith)

abbrev second_project : CreateProjectRequest
second_project = record {
  slug = "web";
  name = "Web";
  description = none;
  kind = "app";
  region = none;
  template_slug = none;
}

create_project_stores_example :
    ((is_member (signed_in "usr_1") world "org_1" ≡ false)
      × (create_project (signed_in "usr_1") "org_1" second_project world ≡ (err no_access, world)))
    ⊎ ((is_member (signed_in "usr_1") world "org_1" ≡ true)
        × Stored "org_1" second_project world
            (create_project (signed_in "usr_1") "org_1" second_project world))
create_project_stores_example =
    create_project_stores (signed_in "usr_1") "org_1" second_project world

update_project_changes_example :
    (row : Project) × (head?
        (filter (is_visible (signed_in "usr_1") world "prj_1") (in_table projects world))
      ≡ some row)
    × ((update_project (signed_in "usr_1") "prj_1" renaming world).0
        ≡ ok (record {
          id = "prj_1";
          org_id = row.org_id;
          slug = row.slug;
          name = "Mine";
          description = row.description;
          kind = row.kind;
          status = row.status;
          region = row.region;
          created_at = row.created_at;
          updated_at = 0;
        }))
    × ((q : Project → Bool)
        → count q (in_table projects (update_project (signed_in "usr_1") "prj_1" renaming world).1)
          ≡ count
              (λ r. q (
                if is_alive "prj_1" r
                then record r {
                  name = "Mine";
                  description = r.description;
                  status = r.status;
                  updated_at = 0;
                }
                else r))
              (in_table projects world))
update_project_changes_example =
    update_project_changes (signed_in "usr_1") world "prj_1" renaming (omega arith) (omega arith)

issue_ada : (issue "usr_1" none none world).0 ≡ ok issued
unfolding issue insert decimal
issue_ada = refl

not_expired : ltb (list_env.clock (issue "usr_1" none none world).1.tick) issued.expires_at ≡ true
unfolding issue insert decimal
not_expired = refl

dotless : no_dot (list_env.ulid 0) ≡ true
unfolding no_dot decimal
dotless = refl

token_not_empty : (list_env.random_bytes 1 32 "base64url" == "") ≡ false
unfolding decimal
token_not_empty = refl

resolve-issue_example :
    (resolve (some "ses_0.r1") (issue "usr_1" none none world).1).0
    ≡ ok (some (record { session_id = "ses_0"; user_id = "usr_1" }))
resolve-issue_example =
    resolve-issue "usr_1" none none world (issue "usr_1" none none world).1 {i = issued} dotless
      token_not_empty issue_ada refl not_expired
