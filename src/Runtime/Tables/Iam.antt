-- ===== src/Runtime/Tables/Iam.antt =====
-- What the iam tables of services/control-plane/src/db/schema.ts enforce.
use absolo_cloud_services.Base.{refl, String, Bool, true, ◌&&◌, ◌||◌, ◌==◌}
use absolo_cloud_services.Runtime.Env.{Env}
use absolo_cloud_services.Runtime.State.{State}
use absolo_cloud_services.Runtime.Action.{Relation, in_table}
use absolo_cloud_services.Schema.Iam.{User, Organization, Membership, Session}
use absolo_cloud_services.Runtime.Tables.Checks.{found}

module _ ⦃env : Env⦄ where
  abbrev pub users : Relation User
  users = record {
    read = λ s. s.users;
    write = λ v s. record s { users = v };
    clashes = λ r r'. r.id == r'.id || r.email == r'.email;
    refers = λ _ _. true;
    read-write = λ _ _. refl;
  }

  abbrev pub user_exists : State → String → Bool
  user_exists s id = found (λ r. r.id == id) (in_table users s)

  abbrev pub organizations : Relation Organization
  organizations = record {
    read = λ s. s.organizations;
    write = λ v s. record s { organizations = v };
    clashes = λ r r'. r.id == r'.id || r.slug == r'.slug;
    refers = λ _ _. true;
    read-write = λ _ _. refl;
  }

  abbrev pub org_exists : State → String → Bool
  org_exists s id = found (λ r. r.id == id) (in_table organizations s)

  abbrev pub memberships : Relation Membership
  memberships = record {
    read = λ s. s.memberships;
    write = λ v s. record s { memberships = v };
    clashes = λ r r'. r.user_id == r'.user_id && r.org_id == r'.org_id;
    refers = λ s r. user_exists s r.user_id && org_exists s r.org_id;
    read-write = λ _ _. refl;
  }

  abbrev pub sessions : Relation Session
  sessions = record {
    read = λ s. s.sessions;
    write = λ v s. record s { sessions = v };
    clashes = λ r r'. r.id == r'.id;
    refers = λ s r. user_exists s r.user_id;
    read-write = λ _ _. refl;
  }
