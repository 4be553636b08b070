-- ===== src/Runtime/State.antt =====
-- The state of the control plane: the tables of services/control-plane/src/db/schema.ts that the
-- modelled services use, how many calls of the clock, of `ulid()` and of third parties were made
-- (`tick`), and the calls that changed something at Stripe, the latest first.
use absolo_cloud_services.Base.{ℕ, List}
use absolo_cloud_services.Runtime.Env.{Env}
use absolo_cloud_services.Runtime.Stripe.{Call}
use absolo_cloud_services.Schema.Iam.{User, Organization, Membership, Session}
use absolo_cloud_services.Schema.Projects.{Project, Environment}
use absolo_cloud_services.Schema.Mq.{OutboxEvent, Saga}
use absolo_cloud_services.Schema.Compute.{App, Deployment}
use absolo_cloud_services.Schema.Billing.{
  Plan, Subscription, SubscriptionItem, PaymentMethod, Invoice, UsageEvent, UsageHourly,
  MeterShipment, TaxProfile, Dunning, Credit, WebhookEvent,
}
use absolo_cloud_services.Schema.Databases.{
  ManagedDatabase, DatabaseUser, Backup, MaintenanceWindow, ParameterGroup,
}
use absolo_cloud_services.Schema.Storage.{Bucket, LifecycleRule, AccessKey}
use absolo_cloud_services.Schema.Domains.{Subdomain, CustomDomain}
use absolo_cloud_services.Schema.Enterprise.{EnterpriseCluster, ClusterHost}
use absolo_cloud_services.Schema.Platform.{Region}
use absolo_cloud_services.Schema.Bindings.{Binding}

module _ ⦃env : Env⦄ where
  open env use {Table}

  pub record State : Type 0 where
    pub tick : ℕ
    pub calls : List Call
    pub users : Table User
    pub organizations : Table Organization
    pub memberships : Table Membership
    pub sessions : Table Session
    pub projects : Table Project
    pub environments : Table Environment
    pub outbox : Table OutboxEvent
    pub saga_state : Table Saga
    pub apps : Table App
    pub deployments : Table Deployment
    pub plans : Table Plan
    pub subscriptions : Table Subscription
    pub subscription_items : Table SubscriptionItem
    pub payment_methods : Table PaymentMethod
    pub invoices : Table Invoice
    pub usage_events : Table UsageEvent
    pub usage_hourly : Table UsageHourly
    pub meter_shipments : Table MeterShipment
    pub tax_profiles : Table TaxProfile
    pub dunning_state : Table Dunning
    pub credits : Table Credit
    pub stripe_webhook_events : Table WebhookEvent
    pub managed_databases : Table ManagedDatabase
    pub database_users : Table DatabaseUser
    pub database_backups : Table Backup
    pub maintenance_windows : Table MaintenanceWindow
    pub parameter_groups : Table ParameterGroup
    pub buckets : Table Bucket
    pub bucket_lifecycle_rules : Table LifecycleRule
    pub access_keys : Table AccessKey
    pub bindings : Table Binding
    pub subdomains : Table Subdomain
    pub custom_domains : Table CustomDomain
    pub enterprise_clusters : Table EnterpriseCluster
    pub cluster_hosts : Table ClusterHost
    pub regions : Table Region
