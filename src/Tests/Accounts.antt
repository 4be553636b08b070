-- ===== src/Tests/Accounts.antt =====
-- The theorems on sign-up and new organizations at sample states.
use absolo_cloud_services.Runtime.State.{State}
use absolo_cloud_services.Base.{◌≤◌, ◌<◌, String, ◌≡◌, refl, ◌⊎◌, true, false, [], ◌∷◌, map, arith}
use absolo_cloud_services.Result.{ok}
use absolo_cloud_services.Runtime.Action.{insert}
use absolo_cloud_services.Texts.{to_lower, decimal, first_chars, drop_chars, text_length}
use absolo_cloud_services.Tests.Concrete.{list_env}
use absolo_cloud_services.Tests.World.{world, user_named}
use absolo_cloud_services.Contracts.Primitives.{is_slug, is_alnum, is_hyphen}
use absolo_cloud_services.Iam.Slugify.{cleaned, trimmed_local, slugify_email_local}
use absolo_cloud_services.Iam.Slugify.Shape.{ends_in_hyphen, slugify_email_local_shape}
use absolo_cloud_services.Iam.Orgs.{create_personal_org}
use absolo_cloud_services.Iam.Orgs.Owners.{Founded, create_personal_org-Founded}
use absolo_cloud_services.Iam.Auth.{SignedIn, to_user}

abbrev dotted : String
dotted = "Ada.Lovelace+x@acme.io"

dotted_slug : cleaned dotted ≡ "ada-lovelace-x"
unfolding cleaned is_alnum is_hyphen to_lower first_chars
dotted_slug = refl

dotted_long : 2 ≤ text_length (cleaned dotted)
unfolding cleaned is_alnum is_hyphen to_lower first_chars
dotted_long = omega arith

slugify_email_local_shape_example :
    (slugify_email_local dotted world ≡ (ok (cleaned dotted), world))
    × ((is_slug (cleaned dotted) ≡ true)
        ⊎ ((32 < text_length (trimmed_local dotted))
            × (ends_in_hyphen true (cleaned dotted) ≡ true)
            × (is_slug (cleaned dotted) ≡ false)))
slugify_email_local_shape_example = slugify_email_local_shape dotted world dotted_long

create_personal_org-Founded_example :
    Founded "usr_1" world (create_personal_org "usr_1" "acme@x.io" "Ada" world)
create_personal_org-Founded_example = create_personal_org-Founded "usr_1" "acme@x.io" "Ada" world

-- The slug of the address is taken, so the second attempt adds a suffix.
second_attempt :
    map (λ r. r.slug) (create_personal_org "usr_1" "acme@x.io" "Ada" world).1.organizations
    ≡ "acme-x2" ∷ "acme" ∷ []
unfolding create_personal_org slugify_email_local insert decimal cleaned is_alnum is_hyphen to_lower
    first_chars drop_chars
second_attempt = refl

abbrev pub later_world : State
later_world = record world { tick = 9 }

abbrev pub signed_up : SignedIn
signed_up = record {
  user =
      to_user (record (user_named "usr_10" "bob@x.io") { created_at = 11000; updated_at = 11000 });
  expires_at = "1970-01-31T00:00:17.000Z";
  scopes = [];
  cookie_value = "ses_15.r16";
}
