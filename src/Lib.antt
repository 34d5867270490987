-- ===== src/Lib.antt =====
-- StellarTip API: a model of the server's own logic, and theorems about it.
--
-- The server is a NestJS application. A request comes through the throttler (a rate limiter whose
-- counters may lie in Redis) to a controller, which calls a service; the services read and write a
-- Postgres database through TypeORM repositories, ask the Stellar network (Horizon and a Soroban
-- contract) about payments, and write notifications.
--
-- Common.antt and the modules below it: tests on numbers, texts and lists; `Num`, the JavaScript
--   numbers, where a finite one counts the smallest unit in use and rounding is left out; `Value`, the
--   values of an unknown type; `Js` and `Crypto`, the parts of the runtime that are parameters.
-- Http.antt: a handler as a function from a state to a result and a state; what was written before a
--   throw stays written. The exceptions are those of the program with their messages.
-- Entities.antt: src/entities, the columns of the four tables.
-- Database.antt: TypeORM's repositories as a record of what they do, with their laws; a table is a
--   list of rows, and a write gives `none` where the database refuses it. Database/Laws.antt is what a
--   write leaves.
-- Notifications.antt: src/notifications/notifications.service.ts.
-- Stellar.antt: src/stellar. Stellar/Events.antt is contract/events.ts, Stellar/Read.antt the readers
--   of webhook fields, Stellar/Webhook.antt `handleContractWebhook` and what it calls, both of
--   stellar.service.ts. Below it: Checks and Refusals (signature and age), Stored, Withdrawn and
--   Effects (what an event leaves), Replay (repeated deliveries), HalfStored and Failures (deliveries
--   that throw).
-- Throttler.antt: src/config/redis-throttler.storage.ts. Throttler/Resp.antt is `serialize` and
--   `parse`, on what stands of the buffer from the offset on; its fuel bounds arrays in arrays, and
--   Resp/Shrinks.antt and Resp/Fuel.antt are about it: one more than the bytes is enough, since each
--   level reads a byte.
--   Throttler/Connection.antt is `command` as the events of its socket, Throttler/Storage.antt
--   `increment`. Throttler/Script.antt is the Lua script on a Redis server, a record of the commands
--   it uses with their documented effects, and the key of src/app.module.ts. To `increment` the
--   script is a text; the encoding of texts and the printing of numbers are parameters (Wire.antt).
-- Tips.antt: src/tips. Tips/Create.antt is `createTip`, `getTipById` and `confirmTip` of tips.service.ts
--   and the endpoint `createTip` of tips.controller.ts; below it Laws and Confirm (what they leave) and
--   Ingest (the webhook over the same tables).
-- Tips/Query.antt is `buildFilterQuery`, Tips/Query/Read.antt the paginated reads over TypeORM's
--   `findAndCount`, a parameter with its laws; below them Bounds and Pages. A whole number stands for
--   a page and a limit.
--   Tips/Listing.antt is the endpoints of tips.controller.ts that list tips; Owners says whose they
--   show, Sent what the requests that write tips, the webhook among them, leave for them.
-- Stellar/Payment.antt is `verifyPayment` and `verifyTipOnContract` of stellar.service.ts, over what
--   Horizon and the contract answer (`Chain`). Tips/Verify.antt (with the types of
--   Tips/Verification.antt) is `verifyTipOnChain` with the cache in memory; below it
--   Outcome (what a verification says and leaves) and Cached (the cache).
-- Auth.antt: src/auth. Auth/Refresh.antt is `refreshToken`, in the two steps that it takes between its
--   waits for the database, and `revokeUserRefreshTokens`; below it Rotation and Spent (what a call
--   leaves), Ended (failures, revocation), Race (the steps of two calls interleaved). Auth/Account.antt
--   is the sign-up, the logins and the JWT strategy; below it Laws and Logins. `jwtService.sign` and
--   bcrypt are parameters of `AuthService`; random tokens and salts are arguments.
--   Auth/Sessions.antt is what the refresh tokens are for, as sessions that are open and what a call
--   may do to them; Refine, Rotations, Openings and Runs show that runs of the calls keep to it,
--   Renewal that an open session can be carried on.
-- Profiles.antt: the updates of src/profiles/profiles.service.ts; below it Wallets. Profiles/Tipping.antt
--   is what anyone reads of a profile, over the reads of the tips as a record, Profiles/Avatar.antt
--   the upload, with the folder of avatars as state and Node's file calls as a record.
-- Shared.antt: src/shared. Shared/Logging.antt is logging/logging.config.ts (Paths: what a path of keys
--   finds in a redacted object), Shared/Sanitizer.antt sanitization/text-sanitizer.ts, on UTF-16 units.
--   Shared/Filter.antt is filters/global-exception.filter.ts, the two files of middleware and
--   interceptors/response.interceptor.ts.
-- Security.antt: the CORS options of src/config/security.config.ts.
-- Health.antt: src/health, with the account reads of Stellar/Account.antt (getAccountInfo and
--   getAccountBalance of stellar.service.ts); what the database and Horizon answer are arguments.
-- Notifications/Inbox.antt: the reads of notifications.service.ts, over TypeORM's counting reads as a
--   record.
--
-- A string is a list of code points; where the program counts UTF-16 units the model says so. Requests
-- are served one after the other: each theorem about a handler is about one run of it, or about runs in
-- a row. Only Auth/Refresh/Race.antt interleaves the steps of two runs.
--
-- Not modelled: the wiring of modules and decorators, the start of the process, Swagger, Sentry's
-- and winston's transports, migrations and seeds, since they are configuration or calls of libraries.
-- Nor are the roles guard, the wallet signatures of the Stellar strategy, the analytics and the
-- search of profiles, which are SQL, and what Sentry's hook takes out of an event, which is the work
-- of three regular expressions.
pub mod Auth
pub mod Common
pub mod Health
pub mod Http
pub mod Entities
pub mod Database
pub mod Notifications
pub mod Fixtures
pub mod Profiles
pub mod Stellar
pub mod Throttler
pub mod Security
pub mod Shared
pub mod Tips
