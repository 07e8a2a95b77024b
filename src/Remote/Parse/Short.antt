-- ===== src/Remote/Parse/Short.antt =====
-- The short forms of a declaration.
use rusnel.Base.{ℕ, ◌<◌, ◌≡◌, refl, sym, ◌∙◌, arith, false, [], ◌∷◌, Bytes, equal, ok}
use rusnel.Net.Number.{show_uint}
use rusnel.Net.Number.Decimal.{show_uint_cons}
use rusnel.Net.Ipv4
use rusnel.Net.Ipv4.{Ipv4, IsIpv4}
use rusnel.Net.Addr.{v4}
use rusnel.Remote.{Protocol, Direction, HostPort, RemoteKind}
use rusnel.Remote.Tokens.{local_host, local_port, remote_port}
use rusnel.Remote.Tokens.Grammar.{plain, last, more}
use rusnel.Remote.Parse.{
  tokens_to_kind, parse_three_tokens, from_str, socket_addr, host_port, socks_keyword,
  parse_one_token, any_v4_text,
}
use rusnel.Remote.Parse.RoundTrip.{
  IsHost, spec, listener, full_tokens, host_token, from_str-full, DigitFirst, unbracket-host_token,
  host_token-IsToken, show_uint-IsToken, show-IsToken, DigitFirst-show, DigitFirst-ne_nil,
  from_str-spec, make_host_port_kind_lem, parse_port-show_uint, parse_ip-show,
}

-- `[R:]ip:port:socks`, with an IPv4 address and a port below 65536, is a SOCKS tunnel at that
-- address, whatever protocol the suffix names.
pub from_str-socks :
    (d : Direction) (p : Protocol) (ip : Ipv4) (bound : ℕ)
    → IsIpv4 ip
    → bound < 65536
    → from_str (spec d p (Ipv4.show ip ∷ show_uint bound ∷ socks_keyword ∷ []))
      ≡ ok (listener d (RemoteKind.socks5 (socket_addr (v4 ip) bound)))
unfolding tokens_to_kind parse_three_tokens
from_str-socks d p ip bound v h =
    from_str-spec d p (Ipv4.show ip) _ _ (DigitFirst-show ip)
      (more (show-IsToken ip v)
        (more (show_uint-IsToken bound) (last (plain socks_keyword refl refl) (λ z. cc))))
      (rw (parse_ip-show ip local_host v, parse_port-show_uint bound local_port h))

DigitFirst-not_socks : {t : Bytes} → DigitFirst t → equal t socks_keyword ≡ false
DigitFirst-not_socks (d, tail, e, lt) = rw e (ground arith)

-- Without a local address the tunnel listens on every IPv4 interface: `port:host:port`, with ports
-- below 65536 and a host with no `]` in it and no `[` in front, says the same as the full form with
-- `0.0.0.0` in front.
pub from_str-three :
    (d : Direction) (p : Protocol) (bound : ℕ) (remote : HostPort)
    → bound < 65536
    → remote.port < 65536
    → IsHost remote.host
    → from_str (spec d p (show_uint bound ∷ host_token remote.host ∷ show_uint remote.port ∷ []))
      ≡ from_str (spec d p (full_tokens Ipv4.unspecified bound remote))
unfolding tokens_to_kind parse_three_tokens
from_str-three d p bound remote h k host =
    from_str-spec d p (show_uint bound) _ _ (show_uint_cons bound)
      (more (show_uint-IsToken bound) (
        more (host_token-IsToken remote.host host)
          (last (show_uint-IsToken remote.port) (DigitFirst-ne_nil (show_uint_cons remote.port)))))
      (rw (
        DigitFirst-not_socks (show_uint_cons remote.port),
        parse_port-show_uint bound local_port h,
        parse_port-show_uint remote.port remote_port k,
        unbracket-host_token remote.host host,
        make_host_port_kind_lem p (socket_addr (v4 Ipv4.unspecified) bound) remote,
      ))
    ∙ sym (from_str-full d p Ipv4.unspecified bound remote (omega arith) h k host)

-- A bare port below 65536 forwards that port of every interface to the same port of `0.0.0.0`.
pub from_str-one :
    (d : Direction) (p : Protocol) (port : ℕ)
    → port < 65536
    → from_str (spec d p (show_uint port ∷ []))
      ≡ from_str (spec d p (full_tokens Ipv4.unspecified port (host_port any_v4_text port)))
unfolding tokens_to_kind parse_one_token
from_str-one d p port h =
    from_str-spec d p (show_uint port) _ _ (show_uint_cons port)
      (last (show_uint-IsToken port) (DigitFirst-ne_nil (show_uint_cons port)))
      (rw (
        DigitFirst-not_socks (show_uint_cons port),
        parse_port-show_uint port remote_port h,
        make_host_port_kind_lem p (socket_addr (v4 Ipv4.unspecified) port)
            (host_port any_v4_text port),
      ))
    ∙ sym (
        from_str-full d p Ipv4.unspecified port (host_port any_v4_text port) (omega arith) h h
          (record { no_bracket = refl; no_close = refl }))
