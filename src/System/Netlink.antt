-- ===== src/System/Netlink.antt =====
-- The Addresser over rtnetlink (internal/system/addresser_linux.go).
pub mod Reported
pub mod Panics
use Prim.Native.Nat.{bit_and}
use corerad.Common.{
  ℕ, ◌%◌, ◌^◌, Bool, true, false, ◌&&◌, ◌||◌, not, List, [], ◌∷◌, ◌++◌, Option, some, none, Result,
  ok, err, panic, ◌>>=◌, map_result, ◌==◌, nat_eq, if◌then◌else◌,
}
use corerad.Common.Int.{ℤ}
use corerad.Netip.Addr
use corerad.Netip.Addr.{Addr, from_slice}
use corerad.Netip.Prefix.{prefix_from}
use corerad.Ndp.{Preference}
use corerad.System.{Error, Ip, Route, World}

-- The constants of the golang.org/x/sys/unix package and of the ndp.Preference type.
pub record Constants : Type 0 where
  pub af_inet6 : ℕ
  pub rt_table_main : ℕ
  pub ifa_f_deprecated : ℕ
  pub ifa_f_managetempaddr : ℕ
  pub ifa_f_stable_privacy : ℕ
  pub ifa_f_temporary : ℕ
  pub ifa_f_tentative : ℕ
  pub to_preference : ℕ → Preference

-- rtnetlink.AddressAttributes and RouteAttributes, with the fields that the program reads; a missing
-- byte slice is empty.
pub record AddressAttributes : Type 0 where
  pub address : List ℕ
  pub flags : ℕ
  pub cache_valid : ℕ

pub record RouteAttributes : Type 0 where
  pub dst : List ℕ
  pub out_iface : ℕ
  pub pref : Option ℕ

pub data Message : Type 0 where
  -- Family, PrefixLength, Attributes.
  address_message : ℕ → ℕ → Option AddressAttributes → Message
  -- Family, DstLength, Attributes.
  route_message : ℕ → ℕ → RouteAttributes → Message
  other_message : Message

pub data Request : Type 0 where
  -- RTM_GETADDR: Family, Index.
  get_addr : ℕ → ℕ → Request
  -- RTM_GETROUTE: Family, OutIface, Table.
  get_route : ℕ → ℕ → ℕ → Request

-- net.Interface.
pub record Interface : Type 0 where
  pub index : ℕ
  pub is_loopback : Bool
  pub is_up : Bool

-- An address in network order that is IPv6 and not an IPv4 address mapped into it.
unfoldable pub parse_ip6 : List ℕ → Option Addr
parse_ip6 bytes = elim (from_slice bytes) [
  | none ↦ none
  | some ip ↦ if not (Addr.is6 ip) || Addr.is4_in6 ip then none else some ip
]

has_flag : ℕ → ℕ → Bool
has_flag f flag = not (bit_and f flag == 0)

module _ (unix : Constants) where
  -- The body of the loop of AddressesByIndex.
  unfoldable pub to_ip : Message → Result Error Ip
  unfolding has_flag
  to_ip (address_message family prefix_length (some attributes)) =
      if not (family == unix.af_inet6) then panic else elim (parse_ip6 attributes.address) [
        | none ↦ panic
        | some ip ↦ ok (record {
          address = prefix_from ip prefix_length;
          deprecated = has_flag attributes.flags unix.ifa_f_deprecated;
          manage_temporary_addresses = has_flag attributes.flags unix.ifa_f_managetempaddr;
          stable_privacy = has_flag attributes.flags unix.ifa_f_stable_privacy;
          temporary = has_flag attributes.flags unix.ifa_f_temporary;
          tentative = has_flag attributes.flags unix.ifa_f_tentative;
          valid_forever = attributes.cache_valid == 0xffffffff;
        })
      ]
  to_ip _ = panic

  -- The body of the loop of routesByIndex.
  unfoldable pub to_route : Message → Result Error Route
  to_route (route_message family dst_length attributes) =
      if not (family == unix.af_inet6) then panic else elim (parse_ip6 attributes.dst) [
        | none ↦ panic
        | some ip ↦ ok (record {
          prefix = prefix_from ip dst_length;
          index = attributes.out_iface;
          preference = elim attributes.pref [
            | none ↦ Preference.medium
            | some p ↦ unix.to_preference p
          ];
        })
      ]
  to_route _ = panic

  module _ (execute : Request → Result Error (List Message)) where
    unfoldable pub addresses_by_index : ℕ → Result Error (List Ip)
    addresses_by_index index = do
      msgs ← execute (get_addr unix.af_inet6 (index % 2 ^ 32))
      map_result to_ip msgs

    unfoldable pub routes_by_index : ℕ → Result Error (List Route)
    routes_by_index index = do
      msgs ← execute (get_route unix.af_inet6 (index % 2 ^ 32) unix.rt_table_main)
      map_result to_route msgs

    -- The loop of LoopbackRoutes, with the routes gathered so far.
    unfoldable pub gather_routes : List Route → List Interface → Result Error (List Route)
    gather_routes routes [] = ok routes
    gather_routes routes (ifi ∷ ifis) =
        if not ifi.is_loopback || not ifi.is_up
        then gather_routes routes ifis
        else (do rs ← routes_by_index ifi.index; gather_routes (routes ++ rs) ifis)

    -- LoopbackRoutes, over the answer of net.Interfaces.
    unfoldable pub loopback_routes : Result Error (List Interface) → Result Error (List Route)
    loopback_routes interfaces = do ifis ← interfaces; gather_routes [] ifis

    -- The system as the Addresser of this file shows it.
    abbrev pub world_of : ℤ → Result Error (List Interface) → World
    world_of now interfaces = record {
      now = now;
      addresses_by_index = addresses_by_index;
      loopback_routes = loopback_routes interfaces;
    }
