-- ===== src/Lib.antt =====
-- eve-online-mcp: a server that lets an assistant read and write a pilot's game through EVE's API.
--
-- A player signs in over OAuth (internal/usecase/oauth) and is given a session, a row in Postgres
-- that holds the refresh token of CCP (internal/usecase/session). A request carries an access
-- token of the session; its tools (internal/usecase/eve) read from ESI, CCP's API, through a
-- client with a cache and limits (internal/adapter/esi/http). A tool that writes asks the guard
-- of its session (internal/domain/write) first: without a confirm token the guard answers a
-- preview and a fresh token, with one it checks the token, the scopes and the mail cap, and every
-- write leaves a row in the audit log.
--
-- Which file models which part:
--   Domain        internal/domain/*/*.go: the entities and the errors that callers tell apart
--   Store         internal/postgres/tx.go: a World holds the tables, the clock, a schedule of
--                 failures and the flag of a transaction; `sql` is one exchange with the database,
--                 `within_tx` is WithinTx. Store/Laws and Store/Runs say what calls leave behind
--   Repo          internal/domain/*/pgx/repo.go: Confirms, Mutations, Sessions, Codes, Logins,
--                 Clients and Characters; a constant fooSQL is `foo_sql`, a method Foo is `foo`
--                 (Take of auth codes is `take_code`). Repo/Mutations/Window counts mails by hours
--   Write/Policy, Write/Summary   internal/domain/write/policy.go and summary.go
--   Write/Guard   internal/domain/write/guard.go: Authorize is `authorize`, Record is
--                 `record_write`, Status is `status`, the unexported methods keep their names; the
--                 guard's own state is in Write/Guard/Monad
--   Write/Call    internal/usecase/eve/record.go and the shape of the writing handlers of
--                 writes_mail.go and its siblings; Write/Call/Races puts two requests side by side,
--                 Write/Call/Mails lists the mails that calls sent
--   Tools         internal/usecase/eve/writes_*.go: a Desk is what a session works on, with the logs of
--                 the writes it sent and of the askings of its guard, and a Net what ESI answers; eveMailSend is `eve_mail_send` of
--                 Tools/Mail, and so on in Compose, Contacts, Fittings, Windows (writes_ui.go) and
--                 Calendar. Tools/Pick is the loop over the names that a tool was given,
--                 Tools/Serve all tools together; Tools/Sends, Tools/Sound and Tools/Consented
--                 follow the writes
--   Sso           internal/adapter/sso/http/client.go and tokens.go: ExchangeCode, AccessToken and
--                 Revoke over a Client, with the network and the languages' libraries in a Library
--   Grant         internal/usecase/session/grant.go: Redeem, Logout, revokeIfScopesFallShort; in
--                 Grant/Access the token state of a session and eveAccess, `eve_access`
--   Oauth         internal/usecase/oauth: exchangeCode of exchange.go, refreshGrant and
--                 requireLive of protect.go, pkceOK of oauth.go; an HTTP answer is a Response.
--                 Oauth/Callback: callback.go, from CompleteCallback to the parked code;
--                 Oauth/Authorize: oauth.go, ServeRegister, ServeAuthorize and ServeToken
--   Esi/Bucket, Esi/Budget, Esi/Cache   internal/adapter/esi/http/bucket.go, budget.go, cache.go
--   Esi/Request   the same directory, request.go: `request` with its retries, on the errors that CCP
--                 counts, and httputil.go; Esi/Client: cachedGet and write
--                 (Esi/Client/Limit: sequences of them); Esi/Pages:
--                 GetCursorPages of pages.go, and in Esi/Pages/Numbered GetAllPages; Esi/Names:
--                 namecache.go and Names of resolver.go; Esi/Lookup: IDsFromNames and ResolveNames
--                 of resolver.go, and internal/adapter/esi/names.go
--   Session       internal/usecase/session/session.go: Character, Live, ResolveCorporation and the
--                 tests of scopes and roles
--   Sweep         internal/usecase/sweep: rules.go, and Once of runner.go; Sweep/Tokens follows the
--                 refresh tokens through a round
--   Http          internal/service/http/limit.go: `allow`, and the calls that wrap lets through
--   Eve           internal/usecase/eve/common.go: Eve/Paging the pages that tools show,
--                 Eve/Locations rootLocations,
--                 Eve/Rows project, compact and the reading of JSON (internal/j/j.go), Eve/Errors the
--                 sentences for errors (errors.go) and Eve/Errors/Answers MapError and Handle,
--                 Eve/Times humanDelta and roman
--   Prelude       shared helpers;  Tests  runs on small inputs
--
-- Times are nanoseconds, natural numbers, and 0 is Go's zero time. Identifiers are natural numbers.
-- A text is a list of code points. The tokens of a bucket, a float in the code, are counted in
-- billionths, where the refill of two a second is exact. An exchange with the database fails when
-- the schedule says so, and a failed statement has changed nothing, but for a `COMMIT`: one that
-- fails may have been applied, by a second schedule; a constraint of the schema that
-- refuses a row is such a failure. Statements run one after another: a method is one step, and
-- mutexes and the database's locks are not modelled. What two requests of one session do to each
-- other is modelled by running their steps in turn. The digest of a request's arguments (JSON and
-- SHA-256) and that of a PKCE verifier are parameters, the random token and the claims of a
-- verified token are arguments. Recursion is structural, but for the eviction of the cache, which
-- has one round for each item of the list, enough since a round takes an item off, and for the
-- retries of a request, which have fuel for three tries, enough since the third one ends the call.
-- The slices of a bulk look-up have as much fuel as there are ids, and a climb of rootLocations as
-- much as there are items, and one. What the network brings to the n-th request, how long it takes
-- and the random share of a pause are parameters, as are CCP's sign-on and JSON's reading and
-- writing. A text that a tool cuts is cut by bytes, and a character that is cut is what JSON writes for
-- it. Lower case, which takes Unicode's tables, and the quoting of a text are parameters. The
-- slices of a look-up of names have as much fuel as there are names. An id and a quantity that a
-- tool is given are natural numbers.
--
-- Not modelled: the metadata documents of OAuth and the signing of tokens; of the client of ESI the
-- prices, and the building of URLs and keys; the start of CCP's sign-on; the reading tools but for
-- their pages, places, fields and errors; the routing of HTTP; process wiring, logs, and the
-- counters of refusals but for that of the mail cap.
pub mod Prelude
pub mod Domain
pub mod Store
pub mod Repo
pub mod Write
pub mod Esi
pub mod Grant
pub mod Tests
pub mod Oauth
pub mod Sweep
pub mod Session
pub mod Tools
pub mod Sso
pub mod Http
pub mod Eve
