-- ===== src/Tests/Requests.antt =====
-- The theorems on the controllers at sample bodies.
use absolo_cloud_services.Base.{
  is_some, ◌≤◌, String, ◌≡◌, refl, Bool, true, none, some, List, [], count,
}
use absolo_cloud_services.Errors.{Issue}
use absolo_cloud_services.Texts.{to_lower, decimal, first_chars, drop_chars}
use absolo_cloud_services.Tests.Concrete.{list_env}
use absolo_cloud_services.Tests.World.{world, signed_in}
use absolo_cloud_services.Tests.Accounts.{later_world, signed_up}
use absolo_cloud_services.Dates.{to_iso_string}
use absolo_cloud_services.Schema.Iam.{User}
use absolo_cloud_services.Runtime.Action.{in_table, insert}
use absolo_cloud_services.Runtime.Tables.Iam.{memberships}
use absolo_cloud_services.Contracts.JsonValues.{Value, str, obj, Fields, field, end, lookup}
use absolo_cloud_services.Contracts.Primitives.{is_alnum, is_hyphen, slug_rest}
use absolo_cloud_services.Contracts.Requests.{signup_request, create_project_request}
use absolo_cloud_services.Controllers.Pipes.{sent, reply_of, handled}
use absolo_cloud_services.Controllers.Auth.Handlers.{handle_sign_up, handle_sign_in}
use absolo_cloud_services.Controllers.Auth.SignIn.{credentials, handle_sign_in-handle_sign_up}
use absolo_cloud_services.Controllers.Projects.Handlers.{
  handle_create, handle_update, handle_remove,
}
use absolo_cloud_services.Controllers.Projects.Conforming.{foreign_slugs, handle_projects_conform}
use absolo_cloud_services.Iam.Slugify.{cleaned, slugify_email_local}
use absolo_cloud_services.Iam.Users.{normalise, create_user}
use absolo_cloud_services.Iam.Orgs.{create_personal_org}
use absolo_cloud_services.Iam.Orgs.Owners.{owned_by}
use absolo_cloud_services.Iam.Sessions.{issue}
use absolo_cloud_services.Iam.Auth.{start_session, signup}

abbrev any_email : String → Bool
any_email _ = true

abbrev no_issues : Value → List Issue
no_issues _ = []

abbrev sign_up_fields : Fields
sign_up_fields = field "email" (str "Bob@x.io") (
    field "password" (str "a long password")
      (field "fullName" (str "Ada") (field "captchaToken" (str "tok") end)))

answered :
    (handle_sign_up any_email no_issues (obj sign_up_fields) none none later_world).0
    ≡ sent signed_up
unfolding handle_sign_up reply_of signup_request signup create_user create_personal_org
    start_session issue slugify_email_local insert decimal normalise to_iso_string cleaned is_alnum
    is_hyphen to_lower first_chars drop_chars
answered = refl

has_email : lookup "email" sign_up_fields ≡ some (str "Bob@x.io")
unfolding lookup
has_email = refl

has_password : lookup "password" sign_up_fields ≡ some (str "a long password")
unfolding lookup
has_password = refl

handle_sign_in-handle_sign_up_example :
    (1
      ≤ count (owned_by signed_up.user.id) (
          in_table memberships
            (handle_sign_up any_email no_issues (obj sign_up_fields) none none later_world).1))
    × ((row : User) × (row.id ≡ signed_up.user.id)
        × (handle_sign_in any_email no_issues
              (credentials "Bob@x.io" "a long password")
              none
              none
              (handle_sign_up any_email no_issues (obj sign_up_fields) none none later_world).1
            ≡ handled
                (start_session row none none)
                (handle_sign_up any_email no_issues (obj sign_up_fields) none none later_world).1))
handle_sign_in-handle_sign_up_example =
    handle_sign_in-handle_sign_up any_email no_issues sign_up_fields "Bob@x.io" "a long password"
      none none none none later_world {x = signed_up} refl has_email has_password answered

abbrev project_body : Value
project_body =
    obj (field "slug" (str "shop") (field "name" (str "Shop") (field "kind" (str "app") end)))

accepted : is_some (create_project_request project_body) ≡ true
unfolding create_project_request is_alnum is_hyphen slug_rest
accepted = refl

handle_projects_conform_example :
    (foreign_slugs (handle_create no_issues (signed_in "usr_1") "org_1" project_body world).1
      ≡ foreign_slugs world)
    × (foreign_slugs (handle_update no_issues (signed_in "usr_1") "org_1" project_body world).1
        ≡ foreign_slugs world)
    × (foreign_slugs (handle_remove (signed_in "usr_1") "org_1" world).1 ≡ foreign_slugs world)
handle_projects_conform_example =
    handle_projects_conform no_issues (signed_in "usr_1") "org_1" project_body world
