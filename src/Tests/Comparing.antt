-- ===== src/Tests/Comparing.antt =====
-- Two routers' advertisements are compared, and shown by the debug API.
use corerad.Common.{
  ◌≡◌, ◌↔◌, ◌⊎◌, refl, Bool, true, false, List, [], ◌∷◌, some, none, Result, ok, panic, Memᴰ,
  Zipped, String, map_result,
}
use corerad.Common.Int.{pos}
use corerad.Ndp.{NdpOption, RouterAdvertisement, Preference, Mtu}
use corerad.Ndp
use corerad.System.{Error}
use corerad.Plugin.Types.{mtu}
use corerad.Config.Types.{Interface}
use corerad.Verify.Problems.{pick_first, as_mtu}
use corerad.Verify.Checks.{check_mtus, verify_ras}
use corerad.Verify.Ras.{check_mtus_lem}
use corerad.Verify.Consistency.{IsConsistent, verify_ras-IsConsistent}
use corerad.Api.Types.{Printer, InterfaceBody, Options}
use corerad.Api.Pack.{pack_options, no_options}
use corerad.Api.Pack.Panics.{is_unhandled, pack_options_panics}
use corerad.Api.Interfaces.{interfaces, IsEntry, interfaces-IsEntry}
use corerad.Netip.Prefix.{prefix6}
use corerad.Tests.Data.{world, parsed_interface, empty_ra}

-- One MTU in two option objects.
abbrev ours : List NdpOption
ours = Ndp.mtu (record { ref = 1; mtu = 1500 }) ∷ []

abbrev theirs : List NdpOption
theirs = Ndp.mtu (record { ref = 2; mtu = 1500 }) ∷ []

-- Equal MTUs are reported as inconsistent.
same_mtu_run : (check_mtus ours theirs ≡ []) → ⊥
unfolding check_mtus pick_first
same_mtu_run h = cc

check_mtus_example : (check_mtus ours theirs ≡ []) ↔ (
    (m n : Mtu)
    → pick_first as_mtu ours ≡ some m
    → pick_first as_mtu theirs ≡ some n
    → m.ref ≡ n.ref)
check_mtus_example = check_mtus_lem ours theirs

verify_ras_example :
    (verify_ras (record empty_ra { options = ours }) (record empty_ra { options = theirs }) ≡ [])
    ↔ IsConsistent (record empty_ra { options = ours }) (record empty_ra { options = theirs })
verify_ras_example =
    verify_ras-IsConsistent (record empty_ra { options = ours })
      (record empty_ra { options = theirs })

abbrev printer : Printer
printer = record { addr = λ _. "address"; prefix = λ _ _. "prefix"; hardware = λ _. "hardware" }

abbrev pref64_options : List NdpOption
pref64_options =
    Ndp.mtu (record { ref = 1; mtu = 1500 })
    ∷ Ndp.pref64 (record { prefix = prefix6 0 96; lifetime = pos 0 })
    ∷ []

pack_options_example :
    ((pack_options printer pref64_options ≡ panic)
      ↔ ((o : NdpOption) × Memᴰ o pref64_options × (is_unhandled o ≡ true)))
    × ((pack_options printer pref64_options ≡ panic)
        ⊎ ((out : Options) × (pack_options printer pref64_options ≡ ok out)))
pack_options_example = pack_options_panics printer pref64_options

abbrev quiet : Interface
quiet = record parsed_interface { advertise = false; name = "eth1" }

abbrev loud : Interface
loud = record parsed_interface { plugins = mtu (pos 1500) ∷ [] }

abbrev body : List InterfaceBody
body =
    record { name = "eth1"; advertise = false; advertisement = none }
    ∷ record {
      name = "eth0";
      advertise = true;
      advertisement = some (record {
        current_hop_limit = 64;
        managed_configuration = false;
        other_configuration = true;
        mobile_ipv6_home_agent = false;
        router_selection_preference = "high";
        neighbor_discovery_proxy = false;
        router_lifetime_seconds = pos 10;
        reachable_time_milliseconds = pos 0;
        retransmit_timer_milliseconds = pos 0;
        options = record (no_options printer) { mtu = 1500 };
      });
    }
    ∷ []

abbrev forwarding : String → Result Error Bool
forwarding name = ok true

interfaces_run : interfaces printer world 0 forwarding (quiet ∷ loud ∷ []) ≡ ok body
unfolding interfaces map_result corerad.Api.Interfaces.interface_body corerad.Api.Interfaces.shown
    corerad.Config.Advertise.router_advertisement corerad.Config.Advertise.apply_all
    corerad.Plugin.Apply.apply corerad.Api.Pack.pack_ra corerad.Api.Pack.preference
    corerad.Config.Advertise.base_ra pack_options corerad.Api.Pack.pack_from
    corerad.Api.Pack.pack_option corerad.Api.Pack.truncated corerad.Plugin.Apply.to_u32
interfaces_run = refl

interfaces_example : Zipped (IsEntry printer world 0 forwarding) (quiet ∷ loud ∷ []) body
interfaces_example =
    interfaces-IsEntry printer world 0 forwarding (quiet ∷ loud ∷ []) interfaces_run
