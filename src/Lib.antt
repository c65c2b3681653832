-- ===== src/Lib.antt =====
-- Verification of guillotina_oauth_server, an OAuth 2 authorization server for the containers of
-- Guillotina: it hands out authorization codes and tokens, keeps them in PostgreSQL, and limits the rate
-- of requests. All paths are below guillotina_oauth_server/.
--
-- The parts, and how they interact. The services (api/services.py) look up the store of their container
-- (storage/access.py) and hand the request to an endpoint (api/endpoints). An endpoint reads a form
-- (utils/request.py), asks the rate limiter (utils/ratelimit.py), and calls the store
-- (storage/pg/repository.py), which keeps codes and tokens under hashes (flow/keys.py, utils/crypto.py).
-- A client is registered, sends its user to the authorization endpoint, which asks for a login and a consent
-- and redirects back with a code, and exchanges the code for tokens. Other requests to Guillotina are let in
-- by the access token (auth/validators.py), whose audience is a resource (indicators,
-- integrations/mcp). At startup the schema of each database is checked, and a task removes expired rows
-- (storage/utility.py).
--
-- The files:
--   Prelude, Exec: shared names and lemmas, on texts and their characters too; methods that change a state
--     and may raise, as functions from a state to a result and a state. What was written before a raise
--     stays written.
--   Sql: SELECT, UPDATE, DELETE and INSERT over tables as lists of rows in scan order, and their lemmas.
--     A statement that returns one row returns the first; LIMIT takes the first rows.
--   Config: the settings of __init__.py, and hmac and sha256 as parameters.
--   Flow: flow/keys.py, flow/pkce.py, flow/scopes.py, flow/consent.py, flow/tokens.py. The random text of
--     a token and `jwt.encode` are parameters. Flow/Csrf is flow/csrf.py, with the encoding of its body
--     as a parameter. Flow/Clients is flow/clients.py: RedirectUris, Registration and Redirects, with
--     Registrable on what a registration lets through.
--   Storage/Rows: the tables of storage/pg/schema.py and the dicts that readers return.
--   Storage/Repository: each method of `PostgresOAuthStore`, by the table it is about, and
--     `cleanup_expired`. A `Session` is a store of one container during one transaction, at its `now()`.
--   Storage/Operations: histories of calls and cleanup runs, by any containers at any times, as lists of
--     events; a concurrent execution of single statements is one of their orders.
--   Storage/Isolation, PrimaryKeys, SingleUse, Revocation, Families, Rotation, Cleanup, Remembered,
--     Issued, Answers, Frame: what the store promises, where Families says row by row which tokens and
--     consents the methods of revocation take. CodeMap is the store of codes as a finite map from
--     hashes to codes, which Refined relates to the code.
--   Storage/Schema: the status, the installation and the migrations of storage/pg/schema_ops.py. The schema
--     that other processes leave during the wait for the lock, and the answers of
--     `pg_try_advisory_lock`, are arguments; so are the statements of a migration and what they do.
--   Storage/Utility: storage/utility.py. Startup has the check of the schemas and the start of the task,
--     Rounds the cleanup loop as a list of ticks: a run, a run that fails with the databases before some
--     one cleaned, a cancellation, or a change that others make to the databases. Sound and Drained say
--     what they do. The root of Guillotina is a list of entries.
--   Storage/Access: storage/access.py, on what the task's variables hold.
--   Utils/RateLimit: the limiter. Memory and Redis hold the windows; Window, Bound, Keys and Agreement
--     say what they do. `Limiter` is the state of the module, and the Redis driver is a parameter
--     whose calls may raise.
--   Utils/Request: the forms, and utils/request.py on texts; SplitJoin is on lists of words. A request holds
--     the decoded pairs of its body. Utils/Json has the values of a JSON body.
--   Utils/Urls: Parse is `urlparse` of Python, Issuer is utils/urls.py.
--   Indicators: indicators/registry.py, grant.py and access.py. A resolver has a name and what it returns for
--     the request at hand.
--   Auth: auth/validators.py, and in Accepted and Issued the tokens that it accepts.
--   Discovery: discovery/routing.py in Routing, the documents in Metadata.
--   Integrations: integrations/mcp. Identifiers has the resources, Challenge the headers and the middleware.
--   Api: Response holds what an endpoint takes from outside (`Context`) and what it answers; Token, Revoke
--     and Consents are the handlers of token.py, revoke.py and consents.py, with what they promise (Token has
--     Exchange, Refused and Replay for codes, and Refresh); Register
--     and Registered are register.py; Pages is pages.py; Services is services.py and install.py.
--   Api/Authorize: authorize.py. Request reads and validates the parameters, Login finds the user, Grant
--     settles the consent and issues the code, Endpoint composes them; Granted, Authorized, Redirects,
--     Remembered, Known and Exchange say what they do. `Browser` holds what this endpoint takes from
--     outside beside the context.
--   Commands: commands/migrate.py: Migrate on one database, Databases on the root.
--   Tests: the results below at concrete inputs.
--
-- Numbers. Timestamps of the database are microseconds since the epoch, as natural numbers; a lifetime
-- in the settings is an integer, and a time before the epoch reads 0. The limiter's times and windows
-- are whole seconds, as are the times in the claims of a token. Columns of JSON are lists of texts. No
-- definition needs fuel: every loop runs over a list.
--
-- Not modelled: connections and the rollback of a transaction; the conversion of datetimes to ISO
-- texts; the decoding of a body into pairs; JSON bodies of authorization requests whose values are
-- neither texts nor lists of texts, or that have a list for a field that may stand once; the HTML of
-- the templates, the style and the logo; the checks of `urlsplit` on the text of a host, which are a
-- parameter (`checked`); log messages; the order in which asyncio runs tasks; the two well-known
-- services and the registration of services and settings with the framework.
pub mod Prelude
pub mod Exec
pub mod Sql
pub mod Config
pub mod Flow
pub mod Storage
pub mod Utils
pub mod Indicators
pub mod Auth
pub mod Discovery
pub mod Integrations
pub mod Api
pub mod Commands
pub mod Tests
