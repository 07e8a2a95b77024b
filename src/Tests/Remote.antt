-- ===== src/Tests/Remote.antt =====
-- Runs of the parser of tunnel declarations (src/common/remote.rs).
use rusnel.Base.{◌≡◌, ◌≢◌, refl, arith, ◌⊎◌, List, [], ◌∷◌, Bytes, ok, err}
use rusnel.Text.{text, split_once}
use rusnel.Net.Ipv4
use rusnel.Net.Ipv4.{Ipv4, IsIpv4}
use rusnel.Net.Addr.{v4}
use rusnel.Remote.{Protocol, reverse, HostPort, RemoteKind}
use rusnel.Remote.Tokens.{split_addr_tokens, split_loop, token_step, out_of_fuel}
use rusnel.Remote.Tokens.Grammar.{join, IsTokens, plain, in_brackets, last, more}
use rusnel.Remote.Tokens.Sound.{join-split_addr_tokens}
use rusnel.Remote.Tokens.Fuel.{split_addr_tokens-terminates}
use rusnel.Remote.Parse.{from_str, socket_addr}
use rusnel.Remote.Parse.Shape.{IsParsed, from_str-IsParsed}
use rusnel.Remote.Parse.RoundTrip.{IsHost, spec, listener, full_tokens, from_str-full}

abbrev loopback : Ipv4
loopback = Ipv4.new 127 0 0 1

loopback-IsIpv4 : IsIpv4 loopback
loopback-IsIpv4 = record {
  a_lt = omega arith;
  b_lt = omega arith;
  c_lt = omega arith;
  d_lt = omega arith;
}

abbrev target : HostPort
target = record { host = text "::1"; port = 80 }

target-IsHost : IsHost (text "::1")
target-IsHost = record { no_bracket = refl; no_close = refl }

from_str-full_example :
    from_str (spec reverse Protocol.udp (full_tokens loopback 8080 target))
    ≡ ok (listener reverse (RemoteKind.udp (socket_addr (v4 loopback) 8080) target))
from_str-full_example =
    from_str-full reverse Protocol.udp loopback 8080 target loopback-IsIpv4 (omega arith)
      (omega arith) target-IsHost

abbrev parts : List Bytes
parts = text "[::]" ∷ text "80" ∷ []

parts-IsTokens : IsTokens parts
parts-IsTokens = more (in_brackets (text "::") refl) (last (plain (text "80") refl refl) (λ e. cc))

split : split_addr_tokens (text "[::]:80") ≡ ok parts
unfolding split_addr_tokens split_loop token_step split_once
split = refl

join-split_addr_tokens_example :
    (join parts ≡ text "[::]:80") × ((text "[::]:80" ≡ []) ⊎ IsTokens parts)
join-split_addr_tokens_example = join-split_addr_tokens (text "[::]:80") split

split_addr_tokens-terminates_example : split_addr_tokens (text "a:[b") ≢ err out_of_fuel
split_addr_tokens-terminates_example = split_addr_tokens-terminates (text "a:[b")

from_str-IsParsed_example :
    IsParsed (listener reverse (RemoteKind.udp (socket_addr (v4 loopback) 8080) target))
from_str-IsParsed_example =
    from_str-IsParsed (spec reverse Protocol.udp (full_tokens loopback 8080 target)) (
      from_str-full reverse Protocol.udp loopback 8080 target loopback-IsIpv4 (omega arith)
        (omega arith) target-IsHost)
