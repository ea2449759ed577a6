-- ===== src/Lib.antt =====
-- Aperture: a reverse proxy that asks clients to pay for a service with the L402 protocol.
--
-- A request reaches the proxy, which finds the configured service that it is for and the level of
-- authentication that the service asks for. The authenticator reads a macaroon and a preimage from
-- the header, lets the mint verify them and asks the challenger whether the invoice is settled. A
-- request without such credentials may pass for free, if the level says so and the counter of its
-- address allows it; otherwise it is answered with a challenge: a fresh macaroon and an invoice.
-- On the client's side, a token holds the macaroon and the preimage, and a file store keeps it.
--
-- Files and code. Each definition keeps the name of the Go function in snake case, and the comment
-- above it says which one it is if the name differs.
-- * L402/Caveat (l402/caveat.go): EncodeCaveat, DecodeCaveat, AddFirstPartyCaveats, HasCaveat and
--   VerifyCaveats. VerifyCaveats groups caveats in a map and ranges over it: the order of the visit
--   is an argument.
-- * L402/Service, L402/Satisfier (l402/service.go, l402/satisfier.go): the text of services, and the
--   satisfiers for services, capabilities and timeouts.
-- * L402/Identifier (l402/identifier.go): the binary identifier of a macaroon.
-- * L402/Header (l402/header.go): FromHeader and SetHeader. The pattern of authRegex is written out
--   as a scan for its leftmost match.
-- * L402/Token (l402/token.go): serializeToken and deserializeToken. A time is its UnixNano.
-- * L402/FileStore (l402/store.go): the file store. A disk maps file names to contents, and each
--   call of the operating system can fail; a write that fails leaves any content behind.
-- * L402/Macaroon, L402/Lntypes: the operations of gopkg.in/macaroon.v2 and lnd's lntypes that the
--   code calls, as records, with the documented behaviour that proofs rely on as records of laws.
-- * Mint (mint/mint.go): MintL402 and VerifyL402. The secret store, the challenger, the service
--   limiter, SHA-256, the random token id and the clock are fields of Config; the secret store has
--   its laws in Mint/Store.
-- * Auth (auth/interface.go, auth/authenticator.go, auth/config.go): the authenticator over a minter
--   and an invoice checker, and the levels.
-- * Freebie (freebie/mem_store.go): the counters of free requests.
-- * Proxy (proxy/proxy.go): ServeHTTP as a function from a request and the state to an outcome and
--   the state after it; matchService; the director. Proxy/Backend (proxy/service.go and
--   pricer/defaultPricer.go) holds the services and their preparation, Proxy/Respond the answers.
--   Regular expressions, the price server and files are parameters.
-- * Limiter (services.go): the static service limiter of the mint, a snapshot of the configuration
--   and of the time at which it is made; one instant stands for the calls of time.Now in it.
-- * EtcdSecrets (secrets.go): the secret store over a client of etcd, which is a parameter with the
--   laws of a key-value store.
-- * L402/Interceptor (l402/client_interceptor.go): a call of the client with its payment, over
--   records of calls of the token store, lnd, the invoice decoder and the server.
-- * L402/ServerInterceptor (l402/server_interceptor.go, l402/context.go): the interceptors of a gRPC
--   server, over the Get of a call's metadata; a handler is a function of its context.
-- * Challenger (challenger/lnd.go): Challenger/Startup reads all invoices of lnd in pages, on fuel
--   that is larger than the largest index; Challenger/Updates is the reader of the stream, a turn
--   for each message; Challenger/Wait is VerifyInvoiceStatus as a schedule, a list of the turns in
--   which the reader, the timeout and the waiting goroutine get the lock. The invoice checker of
--   Auth is one call in one schedule.
-- * Hashmail (hashmail_server.go): Hashmail/Framing is the way of messages through the two pipes;
--   Hashmail/Stream and Hashmail/Server are the operations, with streams as objects on a heap, since
--   a call keeps its stream when the map has another one; Hashmail/Calls are the loops of SendStream
--   and RecvStream; Hashmail/World is the relation of all steps of concurrent calls and timers. The
--   operations are steps where they hold a lock. ReturnStream is two steps, since its channel and
--   its status are not changed under one lock; a look-up is one step, since what can happen between
--   its two parts does not depend on them.
-- * Database (aperturedb/interface.go, aperturedb/sqlerrors.go): ExecTx over a driver, with the
--   retries as recursion on their number. Database/Secrets (aperturedb/secrets.go) is the secret
--   store over a table whose SQL statements have their laws in Database/Kept.
-- * Onion (onion_store.go, aperturedb/onion.go): the two stores of the private key.
-- * LncSessions (lnc/session.go, aperturedb/lnc_sessions.go): new sessions and their store over
--   transactions and a table, whose laws are in LncSessions/Found, and the session that NewNodeConn
--   of lnc/lnc.go opens.
-- * Go holds the parts of Go's standard library that the code uses: strings, strconv, maps,
--   encoding/hex, encoding/base64, encoding/binary, http.Header and instants of package time.
-- * Prelude holds numbers, lists, text as lists of code points, errors and signed integers.
-- * Tests holds a small macaroon library, secret store, lntypes package, proxy, lnd node, mailbox
--   server and database that satisfy the laws, and instances of the theorems on them.
--
-- Conventions. A string or byte slice is a list of numbers. An error is a value of Result; a panic
-- is the error panicked. State is passed and returned. Integers with a width keep their wrap-around
-- written out: uint8 tiers, uint16 counters, uint32 lengths, uint64 amounts, int64 times. The names
-- of header fields are in their canonical spelling, into which configured names are brought. All loops
-- are recursions on lists, but for three on fuel: the digits of a number are printed on the number
-- plus one, which is enough because each step divides by ten; a block is cut into pieces on its
-- length, since each piece takes one byte or more; and the pages of invoices, as said above.
--
-- Not modelled: logging and metrics, but for the count of messages that are read; the assembly of
-- servers in aperture.go and config.go; the transport, TLS and certificates of the proxy; the LNC
-- connection; the gRPC pricer; the drivers of the databases. A request to the proxy
-- is served in one step: requests do not interleave inside a handler. In the hashmail server, the
-- end of the goroutines of a stream and the rate limiter are answers of the calls that wait for
-- them.
pub mod Auth
pub mod Challenger
pub mod Database
pub mod EtcdSecrets
pub mod Freebie
pub mod Go
pub mod Hashmail
pub mod L402
pub mod Limiter
pub mod LncSessions
pub mod Mint
pub mod Onion
pub mod Prelude
pub mod Proxy
pub mod Tests
