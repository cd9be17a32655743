-- ===== src/Tests/Watching.antt =====
-- What rtnetlink reports of addresses, routes and links, and what becomes of it.
use corerad.Common.{
  ℕ, zero, suc, ◌≤◌, ◌<◌, ◌≡◌, ◌↔◌, ◌⊎◌, refl, Bool, true, false, String, List, [], ◌∷◌, Option,
  some, none, Result, ok, err, panic, All, any, arith, filter, ◌==◌, nat_eq, if◌then◌else◌,
}
use corerad.Common.Int.{pos}
use corerad.Netip.Prefix.{prefix6}
use corerad.Ndp
use corerad.System.{Error, Ip}
use corerad.System.Netlink
use corerad.System.Netlink.{
  Constants, Request, Interface, address_message, route_message, get_addr, get_route,
  addresses_by_index, loopback_routes, world_of,
}
use corerad.System.Netlink.Reported.{HasLength, rdnss_current_netlink}
use corerad.System.Netlink.Panics.{is_bad, loopback_routes_panics}
use corerad.Plugin.Rdnss.{current, is_excluded}
use corerad.Plugin.Rdnss.Best.{IsBest}
use corerad.Plugin.Types.{no_usable_addresses}
use corerad.Netstate
use corerad.Netstate.{
  Watcher, Channel, Ending, link_message, oper_down, oper_up, new_watcher, subscribe, interrupted,
  watch,
}
use corerad.Netstate.Delivery.{on_channels, is_wanted}
use corerad.Netstate.Watch.{heard, filled, watch_delivers}
use corerad.Netstate.Names.{link_down, link_any, string}
use corerad.Netstate.Names.Reading.{read, read-string}
use corerad.Tests.Data.{rdnss_plugin}

abbrev unix : Constants
unix = record {
  af_inet6 = 10;
  rt_table_main = 254;
  ifa_f_deprecated = 32;
  ifa_f_managetempaddr = 256;
  ifa_f_stable_privacy = 2048;
  ifa_f_temporary = 1;
  ifa_f_tentative = 64;
  to_preference = λ n. if n == 1 then Ndp.Preference.high else Ndp.Preference.medium;
}

-- 2001:db8::1.
abbrev bytes : List ℕ
bytes = 32 ∷ 1 ∷ 13 ∷ 184 ∷ 0 ∷ 0 ∷ 0 ∷ 0 ∷ 0 ∷ 0 ∷ 0 ∷ 0 ∷ 0 ∷ 0 ∷ 0 ∷ 1 ∷ []

abbrev messages : List Netlink.Message
messages =
    address_message 10 64 (some (record { address = bytes; flags = 0; cache_valid = 4294967295 }))
    ∷ []

-- A default route has no destination.
abbrev default_route : List Netlink.Message
default_route = route_message 10 0 (record { dst = []; out_iface = 1; pref = none }) ∷ []

abbrev execute : Request → Result Error (List Netlink.Message)
execute (get_addr family index) = ok messages
execute (get_route family out_iface table) = ok default_route

abbrev reported : List Ip
reported =
    record {
      address = prefix6 0x20010db8000000000000000000000001 64;
      deprecated = false;
      manage_temporary_addresses = false;
      stable_privacy = false;
      temporary = false;
      tentative = false;
      valid_forever = true;
    }
    ∷ []

reported_run : addresses_by_index unix execute 1 ≡ ok reported
unfolding addresses_by_index corerad.Common.map_result Netlink.to_ip Netlink.parse_ip6
    corerad.Netip.Addr.from_slice corerad.Netip.Addr.is6 corerad.Netip.Addr.is4_in6
    corerad.Netip.Addr.big_endian corerad.Netip.Prefix.prefix_from
reported_run = refl

messages-HasLength : All HasLength messages
messages-HasLength = (omega arith, tt)

rdnss_current_netlink_example :
    ((b : Ip) × IsBest reported b
      × (current rdnss_plugin (world_of unix execute (pos 0) (ok [])) ≡ ok b.address.ip))
    ⊎ (All (λ a. is_excluded a ≡ true) reported
        × (current rdnss_plugin (world_of unix execute (pos 0) (ok [])) ≡ err no_usable_addresses))
rdnss_current_netlink_example =
    rdnss_current_netlink unix execute rdnss_plugin (pos 0) (ok []) 1 messages reported refl refl
      messages-HasLength reported_run

abbrev loopback : Interface
loopback = record { index = 1; is_loopback = true; is_up = true }

default_route_run : loopback_routes unix execute (ok (loopback ∷ [])) ≡ panic
unfolding loopback_routes Netlink.gather_routes Netlink.routes_by_index corerad.Common.map_result
    Netlink.to_route Netlink.parse_ip6 corerad.Netip.Addr.from_slice
default_route_run = refl

loopback_routes_panics_example :
    (loopback_routes unix execute (ok (loopback ∷ [])) ≡ panic)
    ↔ (any (is_bad unix (λ index. default_route)) (loopback ∷ []) ≡ true)
loopback_routes_panics_example =
    loopback_routes_panics unix execute (λ index. default_route) (λ index. refl) (loopback ∷ [])

read-string_example : read (string 3) ≡ some 3
read-string_example = read-string 3 (omega arith)

abbrev channel : Channel
channel = record { buffer = []; closed = false }

abbrev watcher : Watcher
watcher = record {
  watching = false;
  m = ("eth0", (link_any, channel ∷ []) ∷ (link_down, channel ∷ []) ∷ []) ∷ [];
}

subscribe_run : subscribe "eth0" link_down (subscribe "eth0" link_any new_watcher) ≡ watcher
unfolding subscribe Netstate.register Netstate.add_channel
subscribe_run = refl

abbrev batches : List (List Netstate.Message)
batches =
    (link_message (some ("eth0", oper_up)) ∷ link_message (some ("eth1", oper_down)) ∷ [])
    ∷ (link_message (some ("eth0", oper_down)) ∷ [])
    ∷ []

watch_delivers_example : (watch (interrupted none) batches watcher).1 ≡ record {
  watching = true;
  m = on_channels (λ i k. filled (filter (is_wanted k) (heard i batches))) watcher.m;
}
watch_delivers_example = watch_delivers (interrupted none) batches watcher refl
