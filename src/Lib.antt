-- ===== src/Lib.antt =====
-- Unver: a reverse proxy with TLS termination, and the HTTP interface that manages it.
--
-- The program (backend/src) keeps its tables in SQLite. A port group opens a listener on a port; a
-- connection is looked at by its first byte and, for TLS, by the server name in the raw ClientHello, and
-- becomes a TCP tunnel, a TLS session, plain HTTP or a redirect to HTTPS. An HTTP request is matched with
-- a proxy rule of its port group by the host, and is answered, redirected or sent upstream. The handlers
-- under backend/src/api change the tables, refresh the certificate cache and ask for new listeners.
--
-- Files and what they model:
--   Models, State, Errors: the rows of backend/src/models.rs and backend/migrations, the shared state of
--     backend/src/state.rs, the errors of backend/src/errors.rs.
--   Scan: indexing and slicing of bytes, where what is out of bounds is a panic of its own.
--   Action: handlers as functions on the state that return a result or an error; no handler of the
--     program rolls back, so that a failed one leaves what it had written.
--   Sni: extract_sni of backend/src/proxy.rs. Its two loops run on fuel, one more than the length of the
--     buffer; each round advances by three bytes at least, and running out is a value of its own.
--   Serve: serve_connection of backend/src/proxy.rs.
--   Proxy: proxy_request, real_client_ip, the header tests and the bodies of backend/src/proxy.rs.
--   Certs: load_certs_to_cache, cert_covers_domain and decrypt_key_from_db of backend/src/ssl.rs, and
--     CertResolver::resolve of backend/src/proxy.rs.
--   Conn: ConnGuard of backend/src/proxy.rs.
--   PortGroups: backend/src/api/port_groups.rs, and reload_listeners of backend/src/proxy.rs.
--   Rules: backend/src/api/proxies.rs.
--   Security: backend/src/security.rs and the secret settings of backend/src/state.rs.
--   Auth: backend/src/api/auth.rs.
--   Certificates: the handlers of the table of certificates in backend/src/api/settings.rs.
--   Backup: export_config and import_config of backend/src/api/settings.rs.
--   Dns: the interface of backend/src/ddns/providers/mod.rs; its children Aliyun and Cloudflare are the two
--     providers beside it. The pages of list_zones are asked for on fuel, and running out is a value of
--     its own; one more request than there can be zones is enough.
--   Ddns: backend/src/ddns/mod.rs and the handlers of dynamic DNS in backend/src/api/settings.rs.
--   Acme: the issuance and the renewal of certificates in backend/src/ssl.rs. The polls of a challenge are
--     counted down from the bound in the source; the wait for the order has no bound there and runs on fuel.
--   Jobs: issue_certificate and certificate_status of backend/src/api/settings.rs.
--   System: backend/src/health.rs, backend/src/logger.rs, the log queries of backend/src/api/settings.rs, and
--     the load, memory and traffic of backend/src/network.rs.
--   Disk: the file system that the command line works on; any of its calls can fail, and what a program
--     that is started does to the files is an argument.
--   Cli: backend/src/cli.rs, with the children Update, Remove and Password for its commands.
--   Panel: the address and the file service of backend/src/api/mod.rs.
--   Config: backend/src/config.rs.
--   Diagnosis: the tests of the configuration, and the update from the panel, of
--     backend/src/api/settings.rs. A panic is the answer `none`.
--   Settings: get_settings and update_settings of backend/src/api/settings.rs.
--   Access: backend/src/middleware.rs and the API keys of backend/src/api/settings.rs.
--   Prelude: texts as UTF-8 bytes, lists, tests, 64-bit integers, association lists.
--   Tests: runs on concrete data.
--
-- A text is the list of its bytes, and lengths and positions count bytes, as in Rust. A table is the list
-- of its rows in the order of insertion, and a query of one row takes the first that fits. A statement
-- fails only where a constraint of the schema refuses it. UUIDs, random values and the time are arguments.
--
-- Other crates are parameters: Argon2, the JWT codec, SHA-256, hex, base64, AES-GCM, the PEM parser, the
-- URL parser, IP addresses, header values, sockets, the TLS handshake, the HTTP client with its JSON, HMAC
-- and the ACME server. Where a theorem needs their documented behaviour it is the record
-- Security.Secrets.IsCorrect, and for Argon2 Cli.Sessions.IsVerifying.
--
-- Not modelled: floating-point numbers and their text, the streams of the tunnels, start-up, the table of
-- routes, the web interface and the copy of instant-acme under vendor.
pub mod Prelude
pub mod Scan
pub mod Action
pub mod Models
pub mod Errors
pub mod State
pub mod Sni
pub mod Certs
pub mod Proxy
pub mod Conn
pub mod PortGroups
pub mod Security
pub mod Auth
pub mod Access
pub mod Rules
pub mod Serve
pub mod Settings
pub mod Certificates
pub mod Backup
pub mod Dns
pub mod Ddns
pub mod Acme
pub mod Jobs
pub mod System
pub mod Disk
pub mod Cli
pub mod Panel
pub mod Config
pub mod Diagnosis
pub mod Tests
