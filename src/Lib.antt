-- ===== src/Lib.antt =====
-- Reliastra backend: a model of the core of the service, with theorems on it.
--
-- The program (app/) is a FastAPI service that watches the endpoints an organization depends on.
-- A scheduler sends checks of each dependency from several regions; a failure that a second region
-- confirms opens an incident, a recovery closes it, and a closed incident is attributed and
-- documented. Around this core stand accounts with refresh tokens, roles and pricing plans, and a
-- referral program that pays partners a commission on the payments of the customers they brought.
--
-- Which file models which part:
--
-- Prelude      Shared types and lemmas. Prelude/Result is app/core/exceptions.py: a computation
--              that may raise one of the service exceptions. Prelude/Early is a chain of early returns,
--              Prelude/Text is text as a list of code points, Prelude/Lists, Prelude/Tables,
--              Prelude/Rows and Prelude/Order are database tables as lists of rows, with queries, updates,
--              keys and ORDER BY.
-- Permissions  app/core/permissions.py: ROLE_HIERARCHY and has_permission, the tables of the plans.
--              Permissions/Roles and Permissions/Plans have the theorems.
-- Breaker      app/core/circuit_breaker.py: Breaker/Model has _load, _save, _record and
--              should_dispatch over the Redis interface of Breaker/Client; Breaker/History relates the
--              stored document to the history of outcomes, Breaker/Dispatch says when checks go out.
-- Auth         app/modules/auth: Auth/Tokens has the table of refresh tokens, refresh, logout and the
--              token that login and register add, with the rollback of get_db (app/db/session.py)
--              around refresh; Auth/Rotation, Auth/Sessions and Auth/Replay have the invariant of a
--              token family, the step relation and what becomes of used tokens.
-- Incidents    app/modules/incidents: Incidents/Model has the tables and repository.py,
--              Incidents/Service has service.py; Incidents/Unique is about concurrent creation,
--              Incidents/Resolution about resolving, Incidents/Correlation about correlations.
-- Checks       app/modules/checks: Checks/Probe is the redirect loop of execute_check, Checks/Quorum the
--              sets of regions, Checks/Service the rest of execute_check, which calls Incidents and
--              Breaker; Checks/Execution, Checks/Recovery and Checks/Records have the theorems.
-- Billing      app/modules/billing: Billing/Model has the tables, repository.py and _normalized_plan,
--              Billing/Service the verification of a transaction and the handlers of webhook events,
--              Billing/Webhook handle_webhook with its claim in Redis (app/infrastructure/redis_client.py);
--              Billing/Delivery is about events that are lost, Billing/Effects and Billing/Ledger about
--              the calls of Partners, Billing/Provision about a payment that is verified twice.
-- Ssrf         app/core/ssrf_protection.py: Ssrf/Address has the blocked networks, Ssrf/Policy is_url_safe and
--              resolve_pinned_target over a resolver, Ssrf/Probing puts them into the redirect loop of Checks;
--              Ssrf/Mapped is about internal addresses that pass.
-- RateLimit    app/core/rate_limit.py: RateLimit/Limiter has SlidingWindowRateLimiter.check over an interface
--              to Redis sorted sets, RateLimit/ClientIp client_ip_from_request; RateLimit/Window relates the
--              limiter to the history of requests.
-- Observations app/modules/observations: Observations/Outbox has outbox.py and the task process_outbox with the
--              session of app/infrastructure/async_tasks.py; Observations/Batch, Observations/Conservation
--              and Observations/Draining have the theorems.
-- Dependencies app/modules/dependencies: Dependencies/Model has the tables and repository.py, with the
--              applications of app/modules/agencies, Dependencies/Service has service.py; Dependencies/Steps
--              inverts the operations, Dependencies/Limits is about the plans of Permissions,
--              Dependencies/Tenancy, Dependencies/Own and Dependencies/Confined about other organizations,
--              Dependencies/Updates and Dependencies/Headers about what updates and reads do.
-- ApiKeys      app/modules/api_keys: the tables and service.py; ApiKeys/Authentication and ApiKeys/Revocation
--              have the theorems.
-- Organizations app/modules/organizations: Organizations/Model has the tables and repository.py,
--              Organizations/Service has service.py; Organizations/Owners, Organizations/Unique and
--              Organizations/Slugs have theorems, Organizations/Listing pages through the members.
-- Pagination   app/core/pagination.py; Pagination/Keyset follows cursors, for Organizations and for
--              Incidents/Listing, which has the routes that list incidents.
-- Submissions  app/modules/vendor_submissions: Submissions/Names is _sanitize_vendor_name, Submissions/Model has
--              the tables and repository.py with the vendors of app/modules/vendors, Submissions/Service has
--              service.py; Submissions/Inverted inverts the operations, Submissions/Reviewed and
--              Submissions/Steps follow a reviewed row, Submissions/Review has the theorems.
-- Webhooks     app/modules/webhooks: Webhooks/Model has the tables and repository.py, Webhooks/Delivery the
--              deliveries of service.py and their retries; Webhooks/Settled and Webhooks/Exhausted are
--              about deliveries that are not tried again.
-- Partners     app/modules/partners: Partners/Model has the tables, Partners/Repository the queries and
--              updates of repository.py, Partners/Rate apply_rate, Partners/Service bind_referral,
--              Partners/Commissions commissions.py and Partners/Payouts payouts.py. Partners/Ledger
--              has the invariant of the commission ledger and its step relation.
--
-- How the code is represented:
--
-- - A UUID, a user, a region, a token and an address are natural numbers; currencies, codes and role
--   names are lists of code points where the code changes their case, and strings elsewhere. Minor
--   units of money are natural numbers, which Python's integers are where the code keeps them
--   positive. Times are seconds, and milliseconds in Breaker.
-- - A table is a list of rows in the order of creation; ORDER BY executed_at DESC is the reversed list.
--   A primary key is a number that the caller gives, and the theorems ask for a fresh one.
-- - A repository's update takes a patch of optional columns: `none` is Python's None, and the update
--   skips it, as the repository does.
-- - A request that raises has no final state, as get_db rolls its session back. In Auth the session
--   at the end of the handler is kept as well, since the code writes just before it raises.
-- - A unique index is a test of the insertion. Concurrent transactions appear where the code provides
--   for them: check_and_create_incident takes the incidents that others commit between its query and
--   its insertion. In Checks the row lock orders the checks of a dependency.
-- - Code outside the repository is a parameter: Redis (Breaker/Client, with its documented behaviour in
--   the record Answers), JWT decoding and SHA-256 (Outside in Auth/Tokens), the HTTP client and urljoin
--   (Web in Checks/Probe, an answer to each attempt in Webhooks), HMAC and Paystack's answers (Outside in Billing/Webhook), DNS (Resolver in
--   Ssrf/Policy, with a new answer for each lookup), JSON validation and the constraints of the
--   database (Outside in Observations/Outbox), encryption (Cipher in Dependencies/Service) and bcrypt
--   (Hashing in ApiKeys). The SSRF policy and the wording of error messages enter Checks as parameters;
--   Ssrf/Probing fills the first; Submissions has the policy as a parameter as well.
-- - In Observations a session whose flush failed refuses every later statement, as SQLAlchemy's does.
-- - The redirect loop recurs on the redirects that are left, five at first, so that no fuel is needed;
--   every other loop recurs on a list.
--
-- What is left out: log messages, metrics and the payload of audit entries; the text of exceptions; the
-- delivery of alerts and the contents of attributions and evidence reports, of which only the requests
-- are kept; latencies; request headers, methods and timeouts of checks; the routers and schemas; the
-- modules of app/ that are not named above.
pub mod ApiKeys
pub mod Auth
pub mod Billing
pub mod Breaker
pub mod Checks
pub mod Dependencies
pub mod Incidents
pub mod Observations
pub mod Organizations
pub mod Pagination
pub mod Partners
pub mod Permissions
pub mod Prelude
pub mod RateLimit
pub mod Ssrf
pub mod Submissions
pub mod Webhooks
