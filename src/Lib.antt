-- ===== src/Lib.antt =====
-- PQC API: a web service that registers users, logs them in, and signs PDF documents for them with
-- ML-DSA-65. The sources are the C++ files under src/ and include/ of the repository; a module here
-- names the file it is about in its first lines.
--
-- Parts and files:
--   * Prelude: Boolean tests, list lemmas, texts as lists of bytes, integers.
--   * Std: what the sources use of the C++ library. Strings (find, rfind, c_str), Decimal
--     (std::to_string and std::stoi on 32-bit integers), Outcome (exceptions as values), Exec (state
--     and exceptions), Optional (early returns).
--   * External: the libraries that are linked, each a record of functions, most with a record of
--     laws: Openssl (base64, HMAC, SHA-256), Evp (keys and signatures), X509, Ocsp (with
--     libcurl), Sodium, Json (nlohmann::json), Redis (hiredis and the server), Postgres (libpqxx and
--     the server), Files (the C files that src/main.cpp writes), Host (the environment, the providers
--     that are installed, and what the attempts to connect meet).
--   * Persistence: RedisClient, Sessions (SessionRepository), PostgreSqlClient, Users
--     (UserRepository) with the laws of its SQL statements in Users.Table,
--     Documents (DocumentRepository) likewise, with Documents.Table; Shared, what each statement may do
--     to the two tables of scripts/init.sql in one database, and Users.Grown, a users table to which
--     rows were added.
--   * Crypto: src/crypto/DilithiumSigner.cpp. Signer, with the keys as pointers that may dangle.
--   * Tls: src/tls/OQSProvider.cpp. OqsProvider.
--   * Startup: src/main.cpp. Secrets (the JWT secret and the signing key), KeyFile
--     (writePrivateKeyFile), Config (the listener, the headers, the constructors that may throw), Main
--     (`main`, with the clock, the arguments, the environment and the files as arguments). Steps
--     and Checks hold the proofs about a server that runs, Reached those about when it does, Generated
--     those about the key generation mode.
--   * Pki: src/pki. Certificate, Ocsp (OCSPClient), Revocation (RevocationChecker).
--   * Auth: src/auth/AuthManager.cpp. Base64Url, SessionId, Token (buildToken, parseToken), Manager
--     (register, login, verify, logout), World (the two stores that these act on).
--   * Api: src/api/Controllers.cpp. Http (requests, responses, the token check), Disposition
--     (contentDisposition), Accounts (AuthController, UserController, HealthController), Admin
--     (AdminController), Documents (DocumentController, with verifyExternal in Submitted), Service (the
--     routes of include/api/Controllers.h and the handler that each calls). Some answers are stated
--     apart from the code that builds them: Disposition.Value (a header value), Documents.Format (what a
--     PDF is), Documents.Listing (an entry of a list), Documents.Refused (what is wrong with an upload)
--     and Admin.Report (the health report). The proofs about the service
--     as a whole are in Service.Safety (any sequence of calls, as a relation between states), Lifetime
--     (documents), Members (accounts), Tokens (sessions) and Protected (requests without a token). They stand
--     on Service.Kept, the interface of what a handler may keep, that Calls and DocumentCalls use.
--   * Tests: servers in memory, concrete runs, and an application of each theorem.
--
-- State and calls: the controllers call AuthManager, which calls the repositories, which call the
-- clients. A method is a function that takes the state of the servers it reaches and gives it back;
-- the mutex of a client makes each call one step. A method that may throw returns an Outcome beside
-- the state, since what was written before a throw stays written. The clock and the random bytes
-- are arguments. Names in snake_case are the camelCase names of the sources.
--
-- Texts are lists of bytes, integers are mathematical integers with the 32-bit range written out
-- where std::stoi checks it. Loops are structural recursion; the padding loop of base64url_decode
-- has fuel 3, since a length is at most three short of a multiple of four, and the digits of n have
-- fuel n, since n / 10 < n.
--
-- A handler returns the response that the source hands to its callback; an exception that it does not
-- catch is its result. A freed key that is read or freed again is the outcome `undefined`, which no
-- handler catches. json::dump may throw, so a response is itself an Outcome.
--
-- Not modelled: Drogon's matching of a path to a route and its event loop, the output on cout and cerr,
-- freeing what a destructor frees except the keys of the signer, and a second thread in the middle of
-- a handler, except that the second half of a registration may run later than the first.
pub mod Prelude
pub mod Std
pub mod External
pub mod Persistence
pub mod Crypto
pub mod Tls
pub mod Pki
pub mod Auth
pub mod Api
pub mod Startup
pub mod Tests
