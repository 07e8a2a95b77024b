-- ===== src/Lib.antt =====
-- Rusnel: TCP and UDP tunnels over one QUIC connection, in both directions, with SOCKS5.
--
-- A client declares its tunnels as texts such as `R:127.0.0.1:8080:example.com:80/tcp`. They are
-- parsed (src/common/remote.rs), sent in the hello of the session, checked against the policy of the
-- server and registered there (src/server/mod.rs, src/server/state.rs). Each connection through a
-- tunnel is a stream that names the tunnel; the server looks the tunnel up, finds out where to
-- connect, and registers the connection for the time that it lives.
--
-- Base: lists, options, results, Boolean tests on the native numbers, and maps as lists of keys.
-- Text: byte strings, and the operations of `str` that the parser calls.
-- Net: what the program uses of the standard library's numbers in text, IP addresses and socket
--   addresses. `Net.Utf8` is `String::from_utf8_lossy`.
-- Remote: src/common/remote.rs. The types stand in Remote, the tokenizer in Remote/Tokens
--   (`parse_direction`, `parse_protocol`, `split_addr_tokens`, `unbracket`), the rest of the parser
--   in Remote/Parse (`from_str`), and `Display` in Remote/Display. A text is its UTF-8 bytes. The
--   `while` loop of `split_addr_tokens` runs on fuel, the length of the text. An error is a
--   constructor of `RemoteError` for its message.
-- Server/State: src/server/state.rs (its types in Server/Entries), with the counters of
--   src/common/counted.rs. A `DashMap` is the list of its keys; the objects behind the `Arc`s stand
--   in stores that every map shares, so an entry that has left its map is still there for a guard
--   that holds it. An atomic counter is a number modulo 2^64; sums of counters wrap around as in a
--   release build. Time is a number of milliseconds that each call is given. The order in which a
--   `DashMap` is iterated is the order of its list, which only sums depend on.
-- Server/Session: `validate_remotes`, `perform_session_hello` and the start of
--   `handle_client_connection` in src/server/mod.rs. Server/Session/Steps has the steps of a whole
--   server as a relation, in any order: sessions that start and end, conns that are registered,
--   counted bytes and closed guards. A tunnel that a task has looked up may have left its map by the
--   time at which the task registers a conn under it; Server/Session/Handles has why the task can,
--   and Server/Session/Timely the runs in which that does not happen.
-- Server/Host: `run_async` in src/server/mod.rs, the loop that accepts connections under the cap of
--   `--max-clients`, and the task of each connection. Server/Host/Steps has its steps as a relation.
--   Reading the hello, registering the client and answering are one step.
-- Server/OpenStream: `handle_open_conn` and `resolve_dispatch` in src/server/mod.rs. What others do
--   to the registry while the reply is written is a function.
-- Server/Admin: the handlers of the admin API, src/server/admin.rs, with the views that
--   src/server/state.rs makes for them. A handler gives the value that is encoded as JSON.
-- Ctl: src/ctl/mod.rs, the tables of `rusnel ctl`, and `run_ctl` of src/main.rs. A panic is `none`.
--   The tables are rendered from the values that the admin API gives. Base/Sort is the stable sort.
-- Wire: byte streams. Wire/Control is src/common/tunnel.rs, over a codec that is a parameter (the
--   trait of src/common/utils.rs, MessagePack in the program); Wire/Datagram is the framing and the
--   pumps of src/common/udp.rs. A stream is the list of the bytes that arrive until it ends. The loop
--   that delivers datagrams runs on fuel, one more than the bytes that arrive: a round reads two.
--   Wire/Dialogue is code that reads a peer's bytes and says what it writes; both handshakes below
--   are dialogues.
-- Relay: the maps of conns in src/common/udp.rs (`tunnel_udp_client`) and src/common/socks.rs
--   (`run_socks_udp_relay`): bounded channels, one for each key. Relay/Steps has the steps of the
--   listener and of the tasks of its conns, in any order.
-- Tcp: `tunnel_tcp_stream` of src/common/tcp.rs, the two directions with the `Notify` that they
--   share. A run is a list of what each round's polls of the two copies give.
-- Socks: src/common/socks.rs. Socks has the header of UDP datagrams, Socks/Handshake the handshake.
-- Proxy: src/common/proxy.rs. Proxy has the URL and the wrapping of datagrams, Proxy/Handshake what
--   is said to the proxy, and Proxy/Socket the socket that quinn is given.
-- Tls: fingerprints, paths and the self-signed files of src/common/tls.rs, the pinned verifier of
--   src/common/quic.rs, and in Tls/Mode how src/main.rs chooses a mode from flags, the file and what
--   the build embeds. The digest of a certificate is a parameter.
-- Client: `interleave_address_families` of src/main.rs, and `next_backoff`, `run_with_reconnect` and
--   `resolve_reverse_dispatch` of src/client/mod.rs. What the network and the user do to the
--   reconnect loop is a list of events, one for each round. Client/Session has the tunnels of
--   `run_connection` and the streams that the server opens, Client/Race the race of
--   `happy_eyeballs_connect`: what the attempts come to, and the order in which they end, are
--   parameters.
-- Config: the merges of the flags with the file in src/main.rs, of the server in Config and of the
--   client in Config/ClientSide, and in Config/Start what `main` makes of the result. Which flags
--   stand on the command line is a function; clap refuses a command line that breaks `requires`.
-- Tests: runs of the model.
--
-- Not modelled: sockets, QUIC, certificates, timers, HTTP, JSON and TOML, which tokio, quinn, rustls,
-- axum and serde provide; what only wires them (src/common/quic.rs but for the verifier,
-- src/cert.rs, the standard input and output tunnels, logging, the idle timeouts);
-- src/common/counted.rs but for its counters; the credentials that build.rs embeds, whose presence is
-- an argument.
pub mod Base
pub mod Text
pub mod Net
pub mod Remote
pub mod Wire
pub mod Relay
pub mod Server
pub mod Socks
pub mod Proxy
pub mod Client
pub mod Config
pub mod Ctl
pub mod Tcp
pub mod Tls
mod Tests
