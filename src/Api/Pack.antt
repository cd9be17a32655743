-- ===== src/Api/Pack.antt =====
-- packRA and packOptions (internal/crhttp/ra.go). A panic is a result.
pub mod Panics
use corerad.Common.{
  ℕ, suc, ◌/◌, ◌^◌, Bool, String, List, [], ◌∷◌, ◌++◌, map, Result, ok, err, panic, ◌>>=◌,
}
use corerad.Common.Int.{ℤ, pos, negsuc, sub_ℕ}
use corerad.Ndp.{
  NdpOption, Preference, RouterAdvertisement, PrefixInformation, RecursiveDnsServer, DnsSearchList,
}
use corerad.Ndp
use corerad.Api.Types
use corerad.Api.Types.{Options, Advertisement, Printer, ApiError}

-- Division that truncates towards zero: int(d.Seconds()) and d.Milliseconds().
unfoldable pub truncated : ℤ → ℕ → ℤ
truncated (pos n) k = pos (n / k)
truncated (negsuc n) k = sub_ℕ 0 (suc n / k)

abbrev pub seconds : ℤ → ℤ
seconds d = truncated d 1000000000

abbrev pub milliseconds : ℤ → ℤ
milliseconds d = truncated d 1000000

unfoldable pub preference : Preference → Result ApiError String
preference Preference.low = ok "low"
preference Preference.medium = ok "medium"
preference Preference.high = ok "high"
preference (Preference.reserved n) = panic

module _ (print : Printer) where
  abbrev pub pack_dnssl : DnsSearchList → Types.Dnssl
  pack_dnssl o = record { lifetime_seconds = seconds o.lifetime; domain_names = o.domain_names }

  abbrev pub pack_prefix : PrefixInformation → Types.Prefix
  pack_prefix o = record {
    prefix = print.prefix o.prefix o.prefix_length;
    on_link = o.on_link;
    autonomous_address_autoconfiguration = o.autonomous_address_configuration;
    valid_lifetime_seconds = seconds o.valid_lifetime;
    preferred_lifetime_seconds = seconds o.preferred_lifetime;
  }

  abbrev pub pack_rdnss : RecursiveDnsServer → Types.Rdnss
  pack_rdnss o = record {
    lifetime_seconds = seconds o.lifetime;
    servers = map print.addr o.servers;
  }

  -- The body of the loop, on the options packed so far.
  unfoldable pub pack_option : Options → NdpOption → Result ApiError Options
  pack_option out (Ndp.captive_portal o) = ok (record out { captive_portal = o.uri })
  pack_option out (Ndp.dns_search_list o) =
      ok (record out { dnssl = out.dnssl ++ pack_dnssl o ∷ [] })
  pack_option out (Ndp.link_layer_address o) =
      ok (record out { source_link_layer_address = print.hardware o.addr })
  pack_option out (Ndp.mtu o) = ok (record out { mtu = o.mtu })
  pack_option out (Ndp.prefix_information o) =
      ok (record out { prefixes = out.prefixes ++ pack_prefix o ∷ [] })
  pack_option out (Ndp.recursive_dns_server o) =
      ok (record out { rdnss = out.rdnss ++ pack_rdnss o ∷ [] })
  pack_option out (Ndp.route_information o) = do
    p ← preference o.preference
    let r : Types.Route = record {
      prefix = print.prefix o.prefix o.prefix_length;
      preference = p;
      route_lifetime_seconds = seconds o.route_lifetime;
    }
    ok (record out { routes = out.routes ++ r ∷ [] })
  pack_option out (Ndp.pref64 o) = panic
  pack_option out (Ndp.unknown n) = panic

  unfoldable pub pack_from : Options → List NdpOption → Result ApiError Options
  pack_from out [] = ok out
  pack_from out (o ∷ os) = do out' ← pack_option out o; pack_from out' os

  abbrev pub no_options : Options
  no_options = record {
    dnssl = [];
    mtu = 0;
    prefixes = [];
    rdnss = [];
    routes = [];
    source_link_layer_address = "";
    captive_portal = "";
  }

  unfoldable pub pack_options : List NdpOption → Result ApiError Options
  pack_options os = pack_from no_options os

  unfoldable pub pack_ra : RouterAdvertisement → Result ApiError Advertisement
  pack_ra ra = do
    p ← preference ra.router_selection_preference
    os ← pack_options ra.options
    ok (record {
      current_hop_limit = ra.current_hop_limit;
      managed_configuration = ra.managed_configuration;
      other_configuration = ra.other_configuration;
      mobile_ipv6_home_agent = ra.mobile_ipv6_home_agent;
      router_selection_preference = p;
      neighbor_discovery_proxy = ra.neighbor_discovery_proxy;
      router_lifetime_seconds = seconds ra.router_lifetime;
      reachable_time_milliseconds = milliseconds ra.reachable_time;
      retransmit_timer_milliseconds = milliseconds ra.retransmit_timer;
      options = os;
    })
