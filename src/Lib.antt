-- ===== src/Lib.antt =====
-- The server of the dashboard (Go, internal/): users ask for firewall whitelist entries, which a
-- background job writes to an OPNsense router; administrators blacklist addresses.
--
-- The parts and their files:
--
--   Common: lists, tables, maps and texts, with their laws.
--   Config (internal/config/schema.go): the settings that the modelled code reads.
--   Models.Principal (internal/models/user.go, service_account.go,
--   internal/middlewares/principal.go): who asks, with scopes from groups or from a token;
--   Models.Principal.Granting has the theorem on groups. Models.Whitelist
--   (internal/models/ip_whitelist.go): entries and events. Models.Address: addresses as texts;
--   net.ParseIP and PostgreSQL's INET type are the parameter `Net` with the laws that the program
--   relies on; `InetArg` is a nullable parameter of an INET column, which a text that is no
--   address makes fail.
--   Storage.Sql: statements and transactions of the database (pgx), as functions of a session:
--   tables, a clock, and a schedule that says which of the next statements fail.
--   Storage.Sql.Keeps and Storage.Sql.Ensures are rules for invariants and for postconditions,
--   which hold whichever statements fail; Storage.Sql.Calm has the runs in which none fails.
--   Storage.Whitelist (internal/storage/firewall_ip_whitelist_queries.go, the event queries of
--   audit_queries.go, GetSystemUser of database.go,
--   internal/storage/migrations/003_firewall_aliases.up.sql): Schema has the tables and
--   constraints, Read the SELECTs, Write the operations that change them. Reading an event fails
--   where its actor is neither a user nor a service account that a user has created, since the
--   name of the actor is then NULL; the two list queries dereference that NULL, and their panic
--   is taken as a failure too, which the middleware Recoverer answers with status 500 and which
--   ends a job's round with its process. Soundness and Operations are about the invariant of the
--   tables; Adding, Blacklist and Advancing are about the operations.
--   Services.Firewall (internal/services/firewall): the router's client; the router is the
--   parameter `Router`, three calls that may fail; Services.Firewall.Effect says what a router
--   that does what it is told is, as named laws.
--   Handlers.Http, Handlers.Scopes, Handlers.Firewall
--   (internal/handlers/handler_firewall_aliases.go, internal/authorization/const.go): each
--   handler is a function of the configuration, the caller, the request and a session; early
--   returns are values, and a successful reply carries what it writes.
--   Storage.Accounts (internal/storage/service_account_queries.go,
--   internal/storage/migrations/002_service_accounts.up.sql): the SELECTs on service accounts,
--   and in Writing the operations that change them; Lasting follows one account through them,
--   Creating is about the transaction that stores an account with its scopes, Loading about
--   reading one. Handlers.Accounts (internal/handlers/handler_service_accounts.go): the handlers,
--   with Granting for the checks, Posting, Changing and Listing for the outcomes, Keeping for
--   invariants.
--   Storage.Users (internal/storage/user_queries.go,
--   internal/storage/migrations/001_initial_schema.up.sql): users and their groups; the SELECT on
--   the groups has no ORDER BY, and the order in which they come is the parameter `Order`, of
--   which only that it neither loses nor adds a group is assumed. Upserting is about the
--   transaction of a login, LoggingIn about its outcome.
--   Middlewares (internal/middlewares/require_auth.go, internal/utils/headers.go): Base64 and
--   Token have the making and the parsing of service tokens, Header the Authorization header,
--   Auth the verification of a token and the middlewares; argon2 is the parameter `Hasher`, whose
--   law is that a text matches its hash.
--   Data.MemCache (internal/data/mem_cache_provider.go): the memory cache, whose pending timers
--   are part of its state.
--   Models.Certificate (internal/models/certificate.go): the status machine of the certificate
--   requests. Storage.Certificates (the requests and events of
--   internal/storage/certificate_queries.go,
--   internal/storage/migrations/001_initial_schema.up.sql, 002_service_accounts.up.sql and
--   004_certificate_provider_abstraction.up.sql): Schema, Read and Write are laid out as for the
--   whitelist; Tracking follows the row of one id through a statement, Life is what one action
--   may do to a row, Soundness and Recording are invariants, Paging is about pages.
--   Handlers.Certificates (internal/handlers/handler_certificate_request.go): the five handlers,
--   with Requesting and Reviewing for their checks, Filing and Deciding for their outcomes,
--   Stepping and Keeping for what they do to one row and to an invariant.
--   Jobs.Certificates (internal/jobs/certificate_creation_job.go, certificate_status_job.go): one
--   round of each job; the certificate manager (internal/services/certificate) is the parameter
--   `Manager`, four calls on a state of its own, a hash for names and the reading of a
--   certificate, of which nothing is assumed. Creating and Issuing follow one request through a
--   round, Looping and Rounds the whole loop, Running and Outcomes are runs without failures.
--   Jobs.FirewallSync and Jobs.FirewallExpiration (internal/jobs/firewall_sync_job.go,
--   firewall_expiration_job.go): one round of each job.
--   Distributed (internal/distributed/election.go): the election, one command of Redis at a time;
--   Leasing says until when an instance may rely on the key, Commands what each command does to
--   that, Electing what follows. Jobs.JobManager (internal/jobs/job_manager.go): which jobs run,
--   with Monitoring for the theorem.
--   System: requests and job rounds in any order, as the routes of internal/server/handlers.go
--   and the jobs of internal/server/server.go bring them, with the theorems on such sequences.
--   System.Certificates: the same for the certificate routes and jobs. System.Accounts: the same
--   for the routes of the service accounts and the requests that OptionalAuth looks at.
--   Tests: instances of the theorems, and runs.
--
-- Choices. A point of time is a number of nanoseconds and stays the same within one operation.
-- The text of an error is left out, its status or kind is kept. The generated column ip_version
-- and the names that queries join in are left out, but not the failure where such a name is
-- missing. The address of the client is the host of RemoteAddr, as the handlers read it;
-- ClientIPMiddleware, which sets it, is not modelled. UUIDs are compared as texts. Where a
-- transaction rolls back, its sequences keep their new values; a COMMIT that fails is taken as
-- rolled back. The validity of a certificate is an integer, since the configuration and the
-- request may hold a negative one; other limits and times to live are natural numbers, since the
-- configuration is refused otherwise. An expiry that does not parse, or an entry id that is
-- missing or no number, is `none`; negative ids are not modelled. System, System.Certificates and
-- System.Accounts serve one request or one round of a job after the other, each as a whole. Redis
-- keeps a key until its expiry, and a command that fails may have been carried out or not; all
-- instances have one TTL. Go visits the keys of a map in any order; here they come in the order
-- of their first insertion. Every loop is over a list, so no fuel is needed.
--
-- Not modelled: logging, metrics, the writing of HTTP and JSON, the tickers of the jobs,
-- migrations and the connection pool, which are input and output; keys, the authority and the
-- download of certificates, which are cryptography; sessions, the other caches and the checks of
-- the configuration.
pub mod Common
pub mod Config
pub mod Models
pub mod Storage
pub mod Services
pub mod Handlers
pub mod Middlewares
pub mod Data
pub mod Distributed
pub mod Jobs
pub mod System
mod Tests
