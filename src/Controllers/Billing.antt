-- ===== src/Controllers/Billing.antt =====
-- The routes of services/control-plane/src/modules/billing/billing.controller.ts.
pub mod Handlers
use absolo_cloud_services.Base.{[], ◌∷◌}
use absolo_cloud_services.Controllers.Route.{Route, lit, param}

abbrev pub handle_webhook : Route
handle_webhook = record { verb = "POST"; segments = lit "v1" ∷ lit "webhooks" ∷ lit "stripe" ∷ [] }

abbrev pub get_subscription : Route
get_subscription = record {
  verb = "GET";
  segments = lit "v1" ∷ lit "orgs" ∷ param "orgId" ∷ lit "billing" ∷ lit "subscription" ∷ [];
}

abbrev pub change_plan : Route
change_plan = record {
  verb = "PUT";
  segments = lit "v1" ∷ lit "orgs" ∷ param "orgId" ∷ lit "billing" ∷ lit "plan" ∷ [];
}

abbrev pub create_subscription : Route
create_subscription = record {
  verb = "POST";
  segments = lit "v1" ∷ lit "orgs" ∷ param "orgId" ∷ lit "billing" ∷ lit "subscribe" ∷ [];
}

abbrev pub get_usage : Route
get_usage = record {
  verb = "GET";
  segments = lit "v1" ∷ lit "orgs" ∷ param "orgId" ∷ lit "billing" ∷ lit "usage" ∷ [];
}

abbrev pub get_current_spend : Route
get_current_spend = record {
  verb = "GET";
  segments = lit "v1" ∷ lit "orgs" ∷ param "orgId" ∷ lit "billing" ∷ lit "spend" ∷ [];
}

abbrev pub list_invoices : Route
list_invoices = record {
  verb = "GET";
  segments = lit "v1" ∷ lit "orgs" ∷ param "orgId" ∷ lit "billing" ∷ lit "invoices" ∷ [];
}

abbrev pub get_invoice_pdf : Route
get_invoice_pdf = record {
  verb = "GET";
  segments =
      lit "v1"
      ∷ lit "orgs"
      ∷ param "orgId"
      ∷ lit "billing"
      ∷ lit "invoices"
      ∷ param "invoiceId"
      ∷ lit "pdf"
      ∷ [];
}

abbrev pub list_payment_methods : Route
list_payment_methods = record {
  verb = "GET";
  segments = lit "v1" ∷ lit "orgs" ∷ param "orgId" ∷ lit "billing" ∷ lit "payment-methods" ∷ [];
}

abbrev pub add_payment_method : Route
add_payment_method = record {
  verb = "POST";
  segments = lit "v1" ∷ lit "orgs" ∷ param "orgId" ∷ lit "billing" ∷ lit "payment-methods" ∷ [];
}

abbrev pub set_default_payment_method : Route
set_default_payment_method = record {
  verb = "PUT";
  segments =
      lit "v1"
      ∷ lit "orgs"
      ∷ param "orgId"
      ∷ lit "billing"
      ∷ lit "payment-methods"
      ∷ param "pmId"
      ∷ lit "default"
      ∷ [];
}

abbrev pub update_tax_profile : Route
update_tax_profile = record {
  verb = "PUT";
  segments = lit "v1" ∷ lit "orgs" ∷ param "orgId" ∷ lit "billing" ∷ lit "tax" ∷ [];
}

abbrev pub set_spend_cap : Route
set_spend_cap = record {
  verb = "POST";
  segments = lit "v1" ∷ lit "orgs" ∷ param "orgId" ∷ lit "billing" ∷ lit "spend-cap" ∷ [];
}

abbrev pub get_spend_cap : Route
get_spend_cap = record {
  verb = "GET";
  segments = lit "v1" ∷ lit "orgs" ∷ param "orgId" ∷ lit "billing" ∷ lit "spend-cap" ∷ [];
}

abbrev pub create_portal_session : Route
create_portal_session = record {
  verb = "POST";
  segments = lit "v1" ∷ lit "orgs" ∷ param "orgId" ∷ lit "billing" ∷ lit "portal" ∷ [];
}
