-- ===== src/Billing/Invoices.antt =====
-- Usage events, invoices and the spend cap: `ingestUsageEvent`, `listInvoices`,
-- `getInvoicePdfUrl` and `setSpendCap` of
-- services/control-plane/src/modules/billing/billing.service.ts.
pub mod Links
use absolo_cloud_services.Base.{
  ℕ, zero, suc, String, ◌⧺◌, Bool, ◌&&◌, Option, none, some, ◌==◌, List, [], ◌∷◌, if◌then◌else◌,
}
use absolo_cloud_services.Result.{ok, not_found}
use absolo_cloud_services.Runtime.Env.{Env}
use absolo_cloud_services.Runtime.Action.{
  Action, pure, ◌>>=◌, ◌>>◌, or_throw, respond, now, new_id, select, select_first, insert, update,
}
use absolo_cloud_services.Runtime.Tables.Billing.{invoices, usage_events}
use absolo_cloud_services.Runtime.Tables.Iam.{organizations}
use absolo_cloud_services.Schema.Billing.{Invoice, UsageEvent}

-- `.limit(n)`
unfoldable pub take : {A : Type 0} → ℕ → List A → List A
take zero l = []
take (suc n) [] = []
take (suc n) (a ∷ l) = a ∷ take n l

abbrev pub is_invoice : String → String → Invoice → Bool
is_invoice org_id invoice_id r = r.id == invoice_id && r.org_id == org_id

abbrev pub usage_row : String → String → String → String → ℕ → String → ℕ → ℕ → UsageEvent
usage_row id org_id resource_id kind qty unit occurred_at at = record {
  id = id;
  org_id = org_id;
  resource_id = resource_id;
  kind = kind;
  qty = qty;
  unit = unit;
  occurred_at = occurred_at;
  ingested_at = at;
}

-- A text that `if (text)` passes.
abbrev pub truthy : Option String → Option String
truthy none = none
truthy (some t) = if t == "" then none else some t

module _ ⦃env : Env⦄ where
  unfoldable pub ingest_usage_event : String → String → String → ℕ → String → ℕ → Action String
  ingest_usage_event org_id resource_id kind qty unit occurred_at = do
    id ← new_id "uev"
    at ← now
    insert usage_events (usage_row id org_id resource_id kind qty unit occurred_at at)
    pure id

  unfoldable pub list_invoices : String → ℕ → Action (List Invoice)
  unfolding take
  list_invoices org_id limit = do
    rows ← select invoices (λ r. r.org_id == org_id)
    pure (take limit (env.order_by_desc (λ r. r.created_at) rows))

  pub keep_url : String → Option String → Action (Option String)
  keep_url invoice_id none s = (ok none, s)
  keep_url invoice_id (some url) s =
      (do
        update invoices (λ r. r.id == invoice_id) (λ r. record r { pdf_url = some url })
        pure (some url))
        s

  pub fetch_url : String → Option String → Action (Option String)
  unfolding keep_url
  fetch_url invoice_id none s = (ok none, s)
  fetch_url invoice_id (some stripe_id) s =
      (do
        invoice ← respond (λ n. env.invoices_retrieve n stripe_id)
        keep_url invoice_id (truthy invoice.invoice_pdf))
        s

  pub url_of : String → Option String → Option String → Action (Option String)
  unfolding fetch_url
  url_of invoice_id (some url) stripe_id s = (ok (some url), s)
  url_of invoice_id none stripe_id s = fetch_url invoice_id stripe_id s

  unfoldable pub get_invoice_pdf_url : String → String → Action (Option String)
  unfolding url_of
  get_invoice_pdf_url org_id invoice_id = do
    found ← select_first invoices (is_invoice org_id invoice_id)
    inv ← or_throw (not_found ("Invoice " ⧺ invoice_id ⧺ " not found")) found
    url_of invoice_id (truthy inv.pdf_url) (truthy inv.stripe_invoice_id)

  unfoldable pub set_spend_cap : String → ℕ → Action (Unit {0})
  set_spend_cap org_id limit_cents = do
    at ← now
    update organizations (λ r. r.id == org_id)
        (λ r. record r { spend_cap_limit_cents = some limit_cents; updated_at = at })
