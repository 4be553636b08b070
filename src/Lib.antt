-- ===== src/Lib.antt =====
-- The control plane of Absolo Cloud: services/control-plane/src, a NestJS application over
-- Postgres, Stripe and Kubernetes, and its client library packages/sdk-ts/src. Each service class
-- keeps its state in tables and is called by controllers; the client calls the controllers' routes.
--
-- The parts, and the files that model them:
--   * Base, Result, Texts, Dates: shared names, lemmas on lists and counting, what is thrown, and
--     what the services use of JavaScript's strings and dates.
--   * Schema: a record for each table of services/control-plane/src/db/schema.ts, with its columns
--     in the order of the file; a date is a number of milliseconds. Scalars has the values that a
--     sum of the database may have in JavaScript.
--   * Runtime: Env is the interface to what is not in the repository (drizzle-orm's tables as bags
--     of rows with laws that count, the clock, ulidx, node:crypto, Math.random, argon2, and the
--     answers of Stripe, of the cluster and of the store of routes). State holds the tables and
--     Action is an async method: it reads and changes the state, and returns or throws. Tables says
--     what each table's keys, unique indexes and references refuse. Laws has the lemmas on the
--     statements.
--   * Iam: modules/iam, that is users.service.ts, orgs.service.ts (with Slugify for its functions
--     on addresses), sessions.service.ts, auth.service.ts and auth.guard.ts. A sign-up creates a
--     user, an organization of the user's own and a session.
--   * Projects: modules/projects/projects.service.ts, which asks Iam.Orgs for memberships.
--   * Outbox and Apps: modules/outbox and modules/apps; a deployment writes its saga and its event
--     in one transaction.
--   * Orchestrator: modules/orchestrator, which rolls an app out to the cluster on such an event
--     and announces that it is live.
--   * Databases: modules/databases, the instances, the operators' custom resources, the users and
--     the backups.
--   * Storage: modules/storage/storage.service.ts, buckets, access keys and lifecycle rules.
--   * Bindings: modules/bindings/bindings.service.ts, which calls Databases and Storage.
--   * Domains: modules/domains, the service and the handlers of its controller.
--   * Enterprise: modules/enterprise and modules/platform, the two services.
--   * Billing: modules/billing, dunning, customers, payment methods, webhooks, subscriptions,
--     invoices, the spend cap and the meter shipment.
--   * Errors: common/api-error.filter.ts and the codes of packages/contracts/src/errors.ts.
--   * Contracts: the error envelope of packages/contracts/src/errors.ts and the bodies of
--     auth/auth.ts and projects/projects.ts there as parsers of JSON, and SlugSchema of
--     common/primitives.ts.
--   * Controllers: the verb and pattern of each route, from the decorators of the controllers, the
--     pipe of common/zod.pipe.ts, and the handlers, which answer or throw an exception. Where a body
--     is not validated, it has the type that the handler declares.
--   * Sdk: Http is packages/sdk-ts/src/http.ts and errors.ts; Clients has a module for each file of
--     packages/sdk-ts/src/clients, whose methods are what they pass to the transport.
--   * Tests: an instance of the interface, sample rows, and each theorem at them.
--
-- A method is a definition with the method's name in snake case; the code after an early return or
-- a query is a helper of its own by clauses. `new Date()`, `newId` and calls of third parties take
-- one tick of the state each, so that two calls may answer differently; a default of a column
-- counts as a call of the clock. Calls that change something at Stripe, in the cluster, in the
-- store of routes or on the bus are recorded in the state. Logging is left out. A method runs
-- alone: interleavings of requests are not modelled.
--
-- Loops are recursion on lists; the five attempts at a slug are recursion on the attempts left. The
-- digits of a number are computed with fuel: a number has no more digits than itself and one. Texts
-- that are changed (addresses, ids) are ASCII, and the hour is that of UTC. A client's answer is a
-- response or nothing; timeouts and the hook on responses are left out.
--
-- Not modelled: environments and environment variables, whose services are placeholders that answer
-- fixed texts; the handlers for apps, clusters and regions, which hand their arguments on to the
-- services; the issues that zod finds in a body (an argument) and its other schemas; configuration,
-- the user interfaces, and the programs in other directories.
pub mod Base
pub mod Result
pub mod Texts
pub mod Dates
pub mod Schema
pub mod Runtime
pub mod Iam
pub mod Projects
pub mod Storage
pub mod Orchestrator
pub mod Outbox
pub mod Apps
pub mod Contracts
pub mod Controllers
pub mod Databases
pub mod Bindings
pub mod Domains
pub mod Enterprise
pub mod Errors
pub mod Sdk
pub mod Tests
pub mod Billing
