-- ===== src/Billing.antt =====
-- services/control-plane/src/modules/billing: BillingService and BillingMeterService.
pub mod Dunning
pub mod Customers
pub mod PaymentMethods
pub mod Webhooks
pub mod Subscriptions
pub mod Invoices
pub mod Meters
pub mod Spend
