-- ===== src/Tests/Socks.antt =====
-- Runs of SOCKS5 (src/common/socks.rs) and of the outbound proxy (src/common/proxy.rs).
use rusnel.Base.{◌≡◌, refl, arith, true, none, some, [], ◌∷◌, ◌++◌, ok}
use rusnel.Text.{text, contains, rsplit_once}
use rusnel.Net.Ipv4
use rusnel.Net.Ipv4.{read_octet, read_ipv4}
use rusnel.Net.Addr.{v4, SocketAddr}
use rusnel.Remote.{HostPort}
use rusnel.Socks.{parse_socks_udp_header, wrap_socks_udp_reply}
use rusnel.Socks.Udp.{IsSocksHost, v4_text, parse_socks_udp_header-wrap_socks_udp_reply}
use rusnel.Socks.Handshake.{socks_handshake}
use rusnel.Socks.Handshake.Connect.{request_bytes, outcome, socks_handshake-request_bytes}
use rusnel.Proxy.{ProxyConfig, parse_proxy, after_scheme, split_auth}
use rusnel.Proxy.Url.{parse_proxy-auth, parse_proxy-port}

abbrev dns : HostPort
dns = record { host = Ipv4.show (Ipv4.new 8 8 8 8); port = 53 }

dns-IsSocksHost : IsSocksHost dns.host
dns-IsSocksHost =
    v4_text (Ipv4.new 8 8 8 8)
      (record { a_lt = omega arith; b_lt = omega arith; c_lt = omega arith; d_lt = omega arith })

parse_socks_udp_header-wrap_socks_udp_reply_example :
    parse_socks_udp_header (wrap_socks_udp_reply dns (text "hi")) ≡ ok (dns, text "hi")
parse_socks_udp_header-wrap_socks_udp_reply_example =
    parse_socks_udp_header-wrap_socks_udp_reply dns (text "hi") dns-IsSocksHost

socks_handshake-request_bytes_example :
    socks_handshake (request_bytes (0 ∷ 2 ∷ []) 1 dns (text "GET")) ≡ outcome 1 dns (text "GET")
socks_handshake-request_bytes_example =
    socks_handshake-request_bytes (0 ∷ 2 ∷ []) 1 dns (text "GET") dns-IsSocksHost

abbrev relay : SocketAddr
relay = record { ip = v4 Ipv4.localhost; port = 1080 }

abbrev config : ProxyConfig
config = record { addr = text "proxy:1080"; auth = some (text "me", text "a:b@c") }

parse_proxy-auth_example :
    parse_proxy
      (text "socks5://" ++ ((text "me" ++ b':' ∷ text "a:b@c") ++ b'@' ∷ text "proxy:1080"))
    ≡ ok config
parse_proxy-auth_example =
    parse_proxy-auth (text "me") (text "a:b@c") (text "proxy:1080") refl refl refl

bare : parse_proxy (text "proxy:1080") ≡ ok (record { addr = text "proxy:1080"; auth = none })
unfolding parse_proxy after_scheme split_auth rsplit_once
bare = refl

parse_proxy-port_example : contains b':' (text "proxy:1080") ≡ true
parse_proxy-port_example =
    parse_proxy-port (text "proxy:1080") {p = record { addr = text "proxy:1080"; auth = none }} bare
