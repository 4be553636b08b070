-- ===== src/Sdk/Clients/Billing.antt =====
-- The calls of packages/sdk-ts/src/clients/billing.ts.
use absolo_cloud_services.Base.{String, Option, [], ◌∷◌}
use absolo_cloud_services.Contracts.JsonValues.{Value}
use absolo_cloud_services.Sdk.Calls.{Sent, path, send_to, plain, with_object, with_query}

abbrev pub get_subscription : String → Sent
get_subscription org_id =
    send_to "GET" (path ("v1" ∷ "orgs" ∷ org_id ∷ "billing" ∷ "subscription" ∷ [])) plain

abbrev pub subscribe : String → Value → Sent
subscribe org_id body =
    send_to "POST" (path ("v1" ∷ "orgs" ∷ org_id ∷ "billing" ∷ "subscribe" ∷ [])) (with_object body)

abbrev pub change_plan : String → Value → Sent
change_plan org_id body =
    send_to "PUT" (path ("v1" ∷ "orgs" ∷ org_id ∷ "billing" ∷ "plan" ∷ [])) (with_object body)

abbrev pub get_usage : String → Option String → Option String → Sent
get_usage org_id from to =
    send_to "GET" (path ("v1" ∷ "orgs" ∷ org_id ∷ "billing" ∷ "usage" ∷ []))
      (with_query (("from", from) ∷ ("to", to) ∷ []))

abbrev pub get_current_spend : String → Sent
get_current_spend org_id =
    send_to "GET" (path ("v1" ∷ "orgs" ∷ org_id ∷ "billing" ∷ "spend" ∷ [])) plain

abbrev pub list_invoices : String → Sent
list_invoices org_id =
    send_to "GET" (path ("v1" ∷ "orgs" ∷ org_id ∷ "billing" ∷ "invoices" ∷ [])) plain

abbrev pub get_invoice_pdf : String → String → Sent
get_invoice_pdf org_id invoice_id =
    send_to "GET" (path ("v1" ∷ "orgs" ∷ org_id ∷ "billing" ∷ "invoices" ∷ invoice_id ∷ "pdf" ∷ []))
      plain

abbrev pub list_payment_methods : String → Sent
list_payment_methods org_id =
    send_to "GET" (path ("v1" ∷ "orgs" ∷ org_id ∷ "billing" ∷ "payment-methods" ∷ [])) plain

abbrev pub add_payment_method : String → Value → Sent
add_payment_method org_id body =
    send_to "POST" (path ("v1" ∷ "orgs" ∷ org_id ∷ "billing" ∷ "payment-methods" ∷ []))
      (with_object body)

abbrev pub set_default_payment_method : String → String → Sent
set_default_payment_method org_id payment_method_id =
    send_to "PUT"
      (path (
        "v1" ∷ "orgs" ∷ org_id ∷ "billing" ∷ "payment-methods" ∷ payment_method_id ∷ "default"
        ∷ []))
      plain

abbrev pub update_tax_profile : String → Value → Sent
update_tax_profile org_id body =
    send_to "PUT" (path ("v1" ∷ "orgs" ∷ org_id ∷ "billing" ∷ "tax" ∷ [])) (with_object body)

abbrev pub set_spend_cap : String → Value → Sent
set_spend_cap org_id body =
    send_to "POST" (path ("v1" ∷ "orgs" ∷ org_id ∷ "billing" ∷ "spend-cap" ∷ [])) (with_object body)

abbrev pub get_spend_cap : String → Sent
get_spend_cap org_id =
    send_to "GET" (path ("v1" ∷ "orgs" ∷ org_id ∷ "billing" ∷ "spend-cap" ∷ [])) plain

abbrev pub create_portal_session : String → Value → Sent
create_portal_session org_id body =
    send_to "POST" (path ("v1" ∷ "orgs" ∷ org_id ∷ "billing" ∷ "portal" ∷ [])) (with_object body)
