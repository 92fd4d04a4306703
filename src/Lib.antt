-- ===== src/Lib.antt =====
-- Verification of aimail-bridge, a relay between an AIMail server and local agent gateways.
--
-- The program. The bridge keeps a table of routes from e-mail addresses to webhook URLs. In push
-- mode the server posts messages to the bridge, which looks up the recipient and forwards the
-- request; in pull mode the bridge polls the server, forwards each delivery and acknowledges
-- those that a gateway took. An admin API changes the table, a health checker removes the routes
-- of dead targets, and the table is kept in a file that is read again when it changes. In push
-- mode the server has TLS, with a certificate from files or from an ACME order.
--
-- The files.
--   Common    shared names: Boolean tests on numbers, equality of keys (`same`), lists
--   Std       the parts of Rust's standard library that the source calls: texts, `parse` and
--             `to_string` of numbers, `HashMap` as an association list, addresses, files, masks
--   Http      serde_json, http and reqwest as records of operations
--   Security  src/security.rs: `ip_matches`, `parse_cidr`, `add_security_headers`
--   Router    src/router.rs. Router/Route has `ProfileRoute` and the text formats (`from_url`,
--             `new`, `parse_addr`, `persisted_value`); Router/Table has `ProfileRouter` with
--             `load_from_file`, `lookup`, `update_route`, `remove_route`, `write_current_routes`
--             and the watcher's reaction to an event; Router/Toml has the grammar of the files
--             that it writes; Router/Threads has the same operations
--             as threads that take turns at their critical sections
--   Push      src/push.rs. Push/Access: the IP lists, also those of the admin API; Push/RateLimit:
--             `IpRateLimiter`; Push/Webhook: `handle_webhook` and `handle_batch_webhook`;
--             Push/Server: the middleware of `build_push_router` in the order of a request
--   Pull      src/pull.rs: `cycle` is one round of the loop of `start_pull_loop`, with
--             `fetch_pending`, `ack_deliveries` and `api_sign`; Pull/Forward: its loops over
--             batches and deliveries; Pull/Loop: the loop around the cycles
--   Health    src/health.rs: `check_routes`, `route_target_key` and the loop around the rounds
--   Admin     src/admin.rs: `check_admin_ip` and the handlers of the routes
--   Config    src/config.rs: the types, the defaults, `load`, `validate`, and the derived settings
--   Vhost     src/vhost.rs: `build_routes`, `find_vhost`, static files; Vhost/Proxy: the proxy,
--             `handle_vhost` as a whole, and the fallback of `build_push_router`
--   Acme      src/acme.rs: `get_or_acquire_cert`, `check_existing_cert`, `acquire_cert_inner` and
--             `serve_challenge`; Acme/Challenge: the thread of `serve_challenge_http`; Acme/Renew:
--             `renew_loop`
--   Main      src/main.rs: `parse_args` and `parse_args_from`; Main/Process: `daemonize`, the paths
--             of `main` and the log of `init_tracing`; Main/Tls: `acme_tls_config` and the choice of
--             the TLS configuration; Main/Startup: what `async_main` starts;
--             Main/Finish: its result; Main/Shutdown: the process from the start to its exit,
--             as it reacts to signals, reads of the shutdown flag and errors of its tasks
--   Bridge    the parts together, around the route table that they share
--   Tests     runs and examples at concrete inputs, with small stand-ins for other crates
--
-- How the parts interact. The webhook handlers, the pull loop, the health checker and the admin
-- API all work on the state of Router/Table by its operations; a lookup may change it, since a
-- match of a pattern is kept. Push, pull and health take the outside world (client, clocks,
-- probe) as a parameter and pass its state on, one action after the other. Main/Startup calls
-- Main/Tls, which calls Acme; their actions work on files and on the world outside and may fail,
-- and the steps of an action are chained as in the source, an error ending the chain where it
-- occurs.
--
-- Conventions. Texts are lists of code points. Numbers are natural numbers; a counter of 32 bits
-- and the product of the backoff wrap (`% 2 ^ w`), the masks of `ip_matches` are cut to the
-- width. Instants are nanoseconds, and `saturating_duration_since` is the truncated subtraction.
-- A map's iteration order is the order of its association list; `write_current_routes` sorts its
-- keys as the source does. The routes file is the state `file`, and `writable` tells whether a
-- write succeeds. In Acme the files are a map from paths to contents, permission bits and times;
-- a path that may be written to takes the whole write. Loops are recursion on the list they walk,
-- so that no fuel is needed, but for the three loops that run until a flag is set
-- (`start_pull_loop`, `start_route_health`, `renew_loop`): these take the number of their rounds,
-- and one more than the index of the first reading that finds the flag set is enough. The digits
-- of a number are printed with one round more than its value, and the reader of an IPv6 address
-- counts its eight groups. An operation of the router is one step, but in Router/Threads: there a
-- thread makes a step for each critical section, access of the flag and call of the file system,
-- `fs::write` in two halves, and the read lock of `write_current_routes` keeps writers out until the
-- function ends. A read of the file is one step, which may fall between the halves of a write. A
-- schedule is a list of thread numbers; a thread that has to wait loses its turn.
--
-- Not modelled: the sockets, the system's handlers of signals and the TLS handshakes of
-- src/main.rs, the Windows branch of src/acme.rs, the router tables of axum, the constant fields of
-- the health answer of src/admin.rs, the logging, and the timers of the loops. The TOML, JSON,
-- regex, hash, HTTP, TLS and ACME crates are parameters; what the theorems need of them is a
-- hypothesis that is named in the statement, such as `ReadsToml` for the TOML parser on files of
-- comments and unescaped pairs, or the law of `HeaderLib` that a header's name is in lower case.
mod Common
pub mod Std
pub mod Acme
pub mod Admin
pub mod Bridge
pub mod Config
pub mod Health
pub mod Http
pub mod Security
pub mod Router
pub mod Main
pub mod Pull
pub mod Push
pub mod Vhost
mod Tests
