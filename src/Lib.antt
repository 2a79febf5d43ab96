-- ===== src/Lib.antt =====
-- The backend of python-react-template: logins by password and by OIDC, sessions, roles, the
-- administration of users, and rate limits. A request reaches a use case (backend/app/usecases),
-- which asks the rate limiter (backend/app/libraries), reads and writes the tables through
-- repositories (backend/app/services), and groups writes in transactions of the unit of work
-- (backend/app/services/unit_of_work.py).
--
-- Prelude holds lists and texts over the native numbers. RateLimit/Buckets.antt models the ordered
-- dicts of deques of backend/app/libraries/auth_rate_limiter.py (`_trim`, `_get_existing_bucket`,
-- `_get_or_create_bucket`, `_evict_expired_buckets`), RateLimit/Memory.antt the methods of
-- `InMemoryLoginRateLimiter`. RateLimit/Breaker.antt is the circuit breaker of
-- backend/app/libraries/redis_login_rate_limiter.py (`_run_operation` and what it calls), and
-- RateLimit/Redis.antt the commands that `RedisLoginRateLimiter` sends through it.
-- RateLimit/Interface.antt is `LoginRateLimiterInterface`, which both implement and over which the
-- use cases are stated. Store/Rows.antt holds the rows of backend/app/models, Store/Exec.antt the
-- errors, the environment and `UnitOfWork.transaction`; Store/AuthRepository (Users, Sessions,
-- AuditLogs, Oidc), Store/AuthorizationRepository.antt, Store/SampleItemRepository.antt and
-- Store/AdminUserRepository.antt are the repositories of the same names, and Store/AdminQuery.antt
-- is backend/app/models/admin_query.py, Store/Inet.antt the columns of addresses of
-- backend/app/libraries/sqlalchemy_types.py. Auth/Settings.antt, Auth/OidcSettings.antt and
-- Auth/Authorization.antt follow auth.py, oidc.py and authorization.py of backend/app/config,
-- Auth/Catalog.antt the catalogs' checks of the latter, Auth/Issuer.antt follows
-- backend/app/libraries/auth_session_issuer.py, and Auth/Usecase (Login, Session, with Context for
-- what they share) is `AuthUsecase` of backend/app/usecases/auth_usecase.py.
-- Auth/AccountDeletion.antt is account_deletion_usecase.py beside it, Auth/RoleAssignment.antt
-- authorization_usecase.py, Auth/AdminUsers.antt (with Changes for `update_user`)
-- admin_user_usecase.py, Auth/Oidc (Start, Callback, with State, Resolve, Login and Reauth for the
-- parts of a callback, and Redirect for `_normalize_redirect_path`) oauth_oidc_usecase.py,
-- Auth/Oidc/IdToken.antt what `validate_id_token` of backend/app/services/oidc_provider_client.py
-- does with the claims of a token, and SampleItems.antt sample_item_usecase.py. Before a request
-- reaches a use case, Requests/Csrf.antt, the middleware of backend/app/bootstrap/csrf.py, lets it
-- pass, and Requests/ClientIp.antt, backend/app/libraries/client_ip.py, says where it comes from. A
-- method keeps its name; the part of a method behind a test or a query is a function of its own,
-- which its comment names. The other modules hold the proofs, and those named Tests or Examples
-- concrete inputs.
--
-- A call is a function from a world (the tables, the limiter, a count of the calls of the
-- environment, and whether a transaction is open) to a result and a world. The clock, random
-- identifiers and tokens, SHA-256, password hashes, Unicode case, the text of an address and
-- PostgreSQL's advisory locks are the record `Env`, about which nothing is assumed. Further
-- parameters are the base64 text of a cursor, the database's LIKE, the OIDC provider's client,
-- which may fail at each call, urlparse, the parsing of addresses, and the Redis client, of which
-- the server's state is a part, the expiry of its keys too. Times are whole milliseconds, in the
-- limiters whole ticks, which are microseconds for Redis. Every function is by structural
-- recursion, so that no fuel is needed.
--
-- Not modelled: foreign keys but those of user_roles, since the others refer to rows that the
-- request has read and users' rows are never removed; the ValueError of a text that is no address
-- in a column of addresses, since `resolve_client_ip` gives addresses only; two requests that
-- interleave, the columns `created_at` and `updated_at`, log messages but the limiters', the rest
-- of the OIDC provider's client (HTTP, caches and JSON Web Tokens), the settings' validators, the
-- cookies' attributes, the controllers, the command line, and the frontend.
mod Prelude
pub mod RateLimit
pub mod Store
pub mod Auth
pub mod SampleItems
pub mod Requests
