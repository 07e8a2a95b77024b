-- ===== src/Remote/Display.antt =====
-- src/common/remote.rs: `HostPort::to_addr_string`, `remote_addr_string` and the `Display` forms
-- that the admin API and the logs show.
use rusnel.Base.{Bool, true, false, Option, none, some, [], ◌∷◌, ◌++◌, Bytes, if◌then◌else◌}
use rusnel.Text.{text}
use rusnel.Net.Number.{show_uint}
use rusnel.Net.Ipv6
use rusnel.Remote.{HostPort, RemoteKind, RemoteRequest, is_reversed, Protocol}

abbrev pub is_ipv6_literal : Bytes → Bool
is_ipv6_literal host = elim (Ipv6.parse host) [ some _ ↦ true | none ↦ false ]

-- An IPv6 literal is put in brackets.
unfoldable pub to_addr_string : HostPort → Bytes
to_addr_string hp =
    if is_ipv6_literal hp.host
    then b'[' ∷ (hp.host ++ (b']' ∷ b':' ∷ show_uint hp.port))
    else hp.host ++ (b':' ∷ show_uint hp.port)

abbrev kind_addr_string : RemoteKind → Option Bytes
kind_addr_string (RemoteKind.tcp _ remote) = some (to_addr_string remote)
kind_addr_string (RemoteKind.udp _ remote) = some (to_addr_string remote)
kind_addr_string (RemoteKind.socks5 _) = none

unfoldable pub remote_addr_string : RemoteRequest → Option Bytes
remote_addr_string r = kind_addr_string r.kind

unfoldable pub show_protocol : Protocol → Bytes
show_protocol Protocol.tcp = text "tcp"
show_protocol Protocol.udp = text "udp"

show_stdio_kind : RemoteKind → Bytes
show_stdio_kind (RemoteKind.tcp _ remote) = text "stdio=>" ++ (to_addr_string remote ++ text "/tcp")
show_stdio_kind (RemoteKind.udp _ remote) = text "stdio=>" ++ (to_addr_string remote ++ text "/udp")
show_stdio_kind (RemoteKind.socks5 _) = text "stdio=>socks"

show_kind : RemoteKind → Bytes
show_kind (RemoteKind.socks5 addr) = show_uint addr.port ++ text "=>socks"
show_kind (RemoteKind.tcp addr remote) =
    show_uint addr.port ++ (text "=>" ++ (to_addr_string remote ++ text "/tcp"))
show_kind (RemoteKind.udp addr remote) =
    show_uint addr.port ++ (text "=>" ++ (to_addr_string remote ++ text "/udp"))

-- The spec of a tunnel, such as `R:5000=>socks`.
unfoldable pub show_request : RemoteRequest → Bytes
unfolding show_stdio_kind show_kind
show_request r =
    (if is_reversed r then text "R:" else [])
    ++ (if r.stdio then show_stdio_kind r.kind else show_kind r.kind)
