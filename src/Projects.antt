-- ===== src/Projects.antt =====
-- Projects: services/control-plane/src/modules/projects/projects.service.ts.
pub mod Isolation
pub mod Rows
pub mod Additions
pub mod Creation
pub mod Changes
use native.Mathlib.Nat.{le_trans}
use absolo_cloud_services.Base.{
  ℕ, zero, suc, ◌+◌, ◌-◌, ◌*◌, ◌/◌, ◌%◌, ◌≤◌, ◌<◌, String, ◌⧺◌, ◌≡◌, ◌≢◌, refl, sym, ap, ◌∙◌, ◌⊎◌,
  inl, inr, ◌↔◌, Bool, true, false, ◌&&◌, ◌||◌, not, Bool-cases, Option, none, some, is_some,
  some_eq, or_default, given, ◌==◌, eq_refl, eq_iff, eq_comm, nat_eq, ltb, leb, List, [], ◌∷◌, ◌++◌,
  map, head?, find, filter, length, get_elem?, count, count_congr, count_mono, count-false,
  count_none, count_split, count_or_le, count_disjoint, count-append, count_pos_of_head?,
  head?-filter-none, head?-filter-some, head?-filter-count, length-filter, and_left, and_right,
  and_intro, Option-cases, if◌then◌else◌, arith,
}
use absolo_cloud_services.Result.{
  Result, ok, err, is_ok, Error, not_found, conflict, unauthorized, forbidden, bad_request,
  unique_violation, foreign_key_violation, failure, Result-cases,
}
use absolo_cloud_services.Runtime.Env.{Env}
use absolo_cloud_services.Runtime.State.{State}
use absolo_cloud_services.Runtime.Action.{
  Action, pure, throw, ◌>>=◌, ◌>>◌, when, or_throw, catch, transaction, lift, next, respond, send,
  now, new_id, Relation, in_table, select, select_first, clash, update_returning, insert_all,
  insert, insert_or_ignore, upsert, update, delete,
}
use absolo_cloud_services.Schema.Iam.{Membership}
use absolo_cloud_services.Schema.Projects.{Project}
use absolo_cloud_services.Runtime.Tables.Projects.{projects}
use absolo_cloud_services.Iam.Auth.{AuthenticatedUser}
use absolo_cloud_services.Iam.Orgs.{find_membership}

-- `Project` of the contracts: what a client sees of a row.
pub record ProjectView : Type 0 where
  pub id : String
  pub org_id : String
  pub slug : String
  pub name : String
  pub description : String
  pub kind : String
  pub status : String
  pub region : String
  pub created_at : ℕ
  pub updated_at : ℕ

abbrev pub to_domain : Project → ProjectView
to_domain row = record {
  id = row.id;
  org_id = row.org_id;
  slug = row.slug;
  name = row.name;
  description = row.description;
  kind = row.kind;
  status = row.status;
  region = row.region;
  created_at = row.created_at;
  updated_at = row.updated_at;
}

pub record CreateProjectRequest : Type 0 where
  pub slug : String
  pub name : String
  pub description : Option String
  pub kind : String
  pub region : Option String
  -- not used yet by the service
  pub template_slug : Option String

pub record UpdateProjectRequest : Type 0 where
  pub name : Option String
  pub description : Option String
  pub status : Option String

abbrev pub project_row : String → String → CreateProjectRequest → ℕ → Project
project_row id org_id req at = record {
  id = id;
  org_id = org_id;
  slug = req.slug;
  name = req.name;
  description = or_default req.description "";
  kind = req.kind;
  status = "active";
  region = or_default req.region "eu-central";
  created_at = at;
  updated_at = at;
  deleted_at = none;
}

abbrev pub updated : UpdateProjectRequest → ℕ → Project → Project
updated req at r = record r {
  name = or_default req.name r.name;
  description = or_default req.description r.description;
  status = or_default req.status r.status;
  updated_at = at;
}

-- `eq(projects.id, id), isNull(projects.deletedAt)`
abbrev pub is_alive : String → Project → Bool
is_alive id r = r.id == id && not (is_some r.deleted_at)

abbrev pub project_not_found : String → Error
project_not_found id = not_found ("Project " ⧺ id ⧺ " not found")

abbrev pub no_access : Error
no_access = forbidden "You do not have access to this organisation"

module _ ⦃env : Env⦄ where
  abbrev pub assert_membership : AuthenticatedUser → String → Action (Unit {0})
  assert_membership user org_id = do
    m ← find_membership user.id org_id
    or_throw no_access m
    pure tt

  abbrev pub list_projects : AuthenticatedUser → String → Action (List ProjectView)
  list_projects user org_id = do
    assert_membership user org_id
    rows ← select projects (λ r. r.org_id == org_id && not (is_some r.deleted_at))
    pure (map to_domain (env.order_by_desc (λ r. r.created_at) rows))

  -- The row that was found, if the caller may see it.
  pub shown : AuthenticatedUser → Project → Action ProjectView
  shown user row = do assert_membership user row.org_id; pure (to_domain row)

  pub get_project : AuthenticatedUser → String → Action ProjectView
  unfolding shown
  get_project user project_id = do
    found ← select_first projects (is_alive project_id)
    row ← or_throw (project_not_found project_id) found
    shown user row

  -- `catch (err)`: a slug that is taken is the client's mistake.
  pub refuse_slug : String → Error → Action ProjectView
  refuse_slug slug unique_violation s = (
    err (conflict ("A project with slug \"" ⧺ slug ⧺ "\" already exists in this organisation")),
    s,
  )
  refuse_slug slug e s = (err e, s)

  pub store_project : String → CreateProjectRequest → Action ProjectView
  unfolding refuse_slug
  store_project org_id req = do
    id ← new_id "prj"
    at ← now
    catch
        (do
          insert projects (project_row id org_id req at)
          pure (to_domain (project_row id org_id req at)))
        (refuse_slug req.slug)

  pub create_project : AuthenticatedUser → String → CreateProjectRequest → Action ProjectView
  unfolding store_project
  create_project user org_id req = do assert_membership user org_id; store_project org_id req

  -- `const [row] = await update…returning(); if (!row) throw`
  pub change_project : (ℕ → Project → Project) → String → Action ProjectView
  change_project f project_id = do
    at ← now
    rows ← update_returning projects (is_alive project_id) (f at)
    row ← or_throw (project_not_found project_id) (head? rows)
    pure (to_domain row)

  pub update_project : AuthenticatedUser → String → UpdateProjectRequest → Action ProjectView
  unfolding get_project change_project
  update_project user project_id req = do
    existing ← get_project user project_id
    change_project (updated req) existing.id

  abbrev pub deleted : ℕ → Project → Project
  deleted at r = record r { deleted_at = some at; status = "pending_deletion"; updated_at = at }

  pub soft_delete_project : AuthenticatedUser → String → Action (Unit {0})
  unfolding get_project change_project
  soft_delete_project user project_id = do
    existing ← get_project user project_id
    change_project deleted existing.id
    pure tt
