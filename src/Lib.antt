-- ===== src/Lib.antt =====
-- The command `quotio` reads how much of a subscription's quota is left, for the providers that the user
-- has logged in to. It keeps the saved accounts in a vault, fetches the usage of each account, and
-- serves the same reports over HTTP.
--
-- Base: texts, lists, maps, results and methods that change `&mut self`.
-- Fingerprint (src/cache.rs): the digest under which retry keys and refresh tokens are filed.
-- Provider (src/cli.rs, src/providers/catalog/mod.rs, src/providers/key_api.rs): the providers.
-- Accounts: the saved accounts. Accounts.Credential and Accounts.Document are src/accounts/mod.rs
-- (`Credential`, `Account`, `Document` and its methods); Accounts.Vault is src/accounts/vault.rs
-- (`Vault::begin`, `Transaction::commit`); Accounts.Service is src/accounts/service.rs
-- (`begin_with_timeout`, `commit_once`, the account operations, and `fence` and `install`, the two
-- transactions with which `ManagedProvider::read` surrounds a refresh); Accounts.Service.Read is
-- `read` and `verify_current`; Accounts.Service.History is any list of these transactions.
-- Accounts.Choice and Accounts.Input are src/accounts/service.rs too: the adapters that a collection
-- asks, and the checks of a new account; Accounts.Locks is the table of process locks of vault.rs.
-- Accounts.Oauth (src/accounts/oauth.rs, src/accounts/oauth/claude.rs, src/accounts/oauth/copilot.rs):
-- the sessions of logins. Manager and Begin are the methods of `OAuthSessionManager`, a function for each
-- time that a method holds the lock; History is any list of these steps; Polling is the loop of
-- `poll_device`, Codes what is accepted from outside, and Tokens the credential of a token answer.
-- Usage (src/domain.rs): the report of the usage of all providers. Usage.Fetch (src/fetch.rs): the
-- collector, which asks the adapters of the providers, each in a task of its own.
-- Cache (src/cache.rs): the entries of the usage cache, one lookup, and the report of all lookups.
-- Config (src/config.rs) and Settings (src/settings.rs): the configuration file, and the store that
-- patches it. Provider.Named: the names under which a provider is found.
-- Server.Operations (src/server/operations.rs): the table of long operations. Server.Security
-- (src/server/security.rs): the policy of the server and the guard of its requests. Server.Answers
-- (src/server.rs, src/server/management.rs): the answers to errors. Server.Refresh (src/server.rs): the
-- snapshot of the server, its generation, and the refreshes, each in two steps with others between
-- them. Server.Jobs (src/server.rs, src/server/usage_queries.rs): the jobs, the manual refreshes and the
-- start of usage queries. Server.Scope (src/server/management.rs): the check of the account of a
-- manual refresh. Server.Mutations (src/server/management.rs): `mutate`, which changes accounts in two
-- steps, the answer with its operation and the job, between which other steps come.
--
-- The vault is the bytes it stores, if any. A transaction is a function of these bytes and of what the
-- operating system answers: to each attempt to take the locks and to read, until the timeout, and to
-- the write, which may replace the bytes, replace them without being sure, or leave them. A history is
-- a list of transactions with their answers; as a transaction holds the lock of the vault, transactions
-- of several processes come one after the other. It is allowed if what a fence or an installation
-- writes is a credential of a kind that can be refreshed, as in `read`. Structural recursion on these
-- lists takes the place of fuel.
--
-- SHA-256, HMAC, the parser of URLs, floats, the random source, the clock, the TOML and JSON of
-- `serde`, `Provider::from_str`, `flock`, and what the environment and the disk of the machine hold
-- are arguments, and so is what a provider answers. The retry loop of the collector makes at most
-- three attempts, which are its fuel; the fuel of the polling of a device is enough where its rounds,
-- of at least five seconds, reach past the deadline. The message of a provider's error may be any
-- text. The network clients of the providers, the terminal, the keychains, the browser, the exchange
-- of codes for tokens, and the routing of HTTP requests are not modelled; of the rest of service.rs,
-- the scoped keys and the checks of credentials are not.
pub mod Accounts
pub mod Base
pub mod Cache
pub mod Config
pub mod Fingerprint
pub mod Provider
pub mod Server
pub mod Settings
pub mod Usage
