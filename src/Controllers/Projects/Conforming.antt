-- ===== src/Controllers/Projects/Conforming.antt =====
-- Which slugs come to the table of projects through the controller.
use absolo_cloud_services.Base.{
  ℕ, String, ◌≡◌, refl, ap, ◌∙◌, inl, inr, Bool, true, not, some, leb, List, [], ◌∷◌, count,
  Option-cases,
}
use absolo_cloud_services.Runtime.Env.{Env}
use absolo_cloud_services.Runtime.State.{State}
use absolo_cloud_services.Runtime.Action.{in_table}
use absolo_cloud_services.Errors.{Issue}
use absolo_cloud_services.Schema.Projects.{Project}
use absolo_cloud_services.Runtime.Tables.Projects.{projects}
use absolo_cloud_services.Iam.Auth.{AuthenticatedUser}
use absolo_cloud_services.Projects.{CreateProjectRequest}
use absolo_cloud_services.Projects.Additions.{
  count-create_project, count-update_project, count-soft_delete_project,
}
use absolo_cloud_services.Contracts.JsonValues.{Value, Fields, lookup}
use absolo_cloud_services.Contracts.Primitives.{is_slug}
use absolo_cloud_services.Contracts.Envelopes.{◌>>=◌, required_text}
use absolo_cloud_services.Contracts.Requests.{
  read_project, create_project_request, update_project_request, passing, has_length, optional,
  is_one_of,
}
use absolo_cloud_services.Texts.{text_length}
use absolo_cloud_services.Contracts.Requests.Steps.{
  >>=-some, strict-some, made_of_five, passing-some,
}
use absolo_cloud_services.Controllers.Pipes.{with_request}
use absolo_cloud_services.Controllers.Projects.Handlers.{
  handle_create, handle_update, handle_remove,
}

-- A project whose slug is none of the contract's.
abbrev pub is_foreign : Project → Bool
is_foreign r = not (is_slug r.slug)

read_project_slug :
    (fs : Fields) (slug : String) {req : CreateProjectRequest}
    → read_project fs slug ≡ some req
    → req.slug ≡ slug
unfolding read_project
read_project_slug fs slug {req} e =
    made_of_five (λ r. r.slug ≡ slug)
      (required_text (lookup "name" fs) >>= passing (has_length 1 120))
      (optional (λ s. leb (text_length s) 2000) (lookup "description" fs))
      (required_text (lookup "kind" fs) >>= passing (is_one_of ("app" ∷ "site" ∷ "mixed" ∷ [])))
      (optional (λ _. true) (lookup "region" fs)) (optional is_slug (lookup "templateSlug" fs))
      (λ name description kind region template_slug. record {
        slug = slug;
        name = name;
        description = description;
        kind = kind;
        region = region;
        template_slug = template_slug;
      })
      {r = req} (λ _ _ _ _ _ _ _. refl) e

create_project_request_slug :
    (body : Value) {req : CreateProjectRequest}
    → create_project_request body ≡ some req
    → is_slug req.slug ≡ true
unfolding create_project_request
create_project_request_slug body {req} e =
    let (fs, _, read) =
      strict-some ("slug" ∷ "name" ∷ "description" ∷ "kind" ∷ "region" ∷ "templateSlug" ∷ [])
        (λ fs. required_text (lookup "slug" fs) >>= passing is_slug >>= read_project fs) body
        {a = req} e in
    let (slug, checked, rest) =
      >>=-some (required_text (lookup "slug" fs) >>= passing is_slug) (read_project fs) {b = req}
        read in
    let (text, _, passed) =
      >>=-some (required_text (lookup "slug" fs)) (passing is_slug) {b = slug} checked in
    ap (λ t. is_slug t) (read_project_slug fs slug {req = req} rest)
    ∙ (passing-some is_slug text {t = slug} passed).1

module _ ⦃env : Env⦄ where
  abbrev pub foreign_slugs : State → ℕ
  foreign_slugs s = count is_foreign (in_table projects s)

  create_foreign :
      (issues : Value → List Issue) (user : AuthenticatedUser) (org_id : String) (body : Value)
      (s : State)
      → foreign_slugs (handle_create issues user org_id body s).1 ≡ foreign_slugs s
  unfolding handle_create with_request
  create_foreign issues user org_id body s = elim (Option-cases (create_project_request body)) [
    | inl refused ↦ rw refused refl
    | inr (req, accepted) ↦ rw accepted (
        count-create_project is_foreign user org_id req s
          (λ _ _. ap (λ b. not b) (create_project_request_slug body {req = req} accepted)))
  ]

  -- No request to create, change or delete a project, whatever its body, changes how many projects
  -- have a slug that is none of the contract's.
  pub handle_projects_conform :
      (issues : Value → List Issue) (user : AuthenticatedUser) (id : String) (body : Value)
      (s : State)
      → (foreign_slugs (handle_create issues user id body s).1 ≡ foreign_slugs s)
        × (foreign_slugs (handle_update issues user id body s).1 ≡ foreign_slugs s)
        × (foreign_slugs (handle_remove user id s).1 ≡ foreign_slugs s)
  unfolding handle_update handle_remove with_request
  handle_projects_conform issues user id body s = (
    create_foreign issues user id body s,
    elim (Option-cases (update_project_request body)) [
      | inl refused ↦ rw refused refl
      | inr (req, accepted) ↦
          rw accepted (count-update_project is_foreign user id req s (λ _ _. refl))
    ],
    count-soft_delete_project is_foreign user id s (λ _ _. refl),
  )
