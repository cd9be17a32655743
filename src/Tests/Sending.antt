-- ===== src/Tests/Sending.antt =====
-- What an interface sends, when, and how it answers.
use corerad.Common.{
  ℕ, ◌+◌, ◌*◌, ◌≤◌, ◌<◌, ◌≡◌, ◌↔◌, ◌⊎◌, inl, refl, true, false, ◌&&◌, List, [], ◌∷◌, ◌++◌, map, ok,
  err, panic, arith, if◌then◌else◌,
}
use corerad.Common.Int.{ℤ, pos, ◌≤ℤ◌, ◌<ℤ◌, ◌+ℤ◌, ◌-ℤ◌}
use corerad.Netip.Addr
use corerad.Netip.Addr.{Addr, all_nodes, none_addr, v6}
use corerad.Ndp.{NdpOption, RouterAdvertisement}
use corerad.Ndp
use corerad.Plugin.Types.{mtu}
use corerad.Plugin.Apply.{push_options}
use corerad.Config.Types.{Interface, Misconfiguration, ConfigError, interface_not_forwarding}
use corerad.Config.Advertise.{router_advertisement, base_ra}
use corerad.Config.Advertise.Built.{
  contributions, IsConfigured, IsLifetime, router_advertisement_lem,
}
use corerad.Plugin.Apply.Contribution.{contribution}
use corerad.Verify.Checks.{verify_ras}
use corerad.Verify.Consistency.{IsConsistent}
use corerad.Advertiser.Timing.{
  second, multicast_delay, schedule_request, multicast_delay_bounds, schedule_request_spaced,
  schedule_request_close,
}
use corerad.Advertiser.Messages
use corerad.Advertiser.Messages.{
  Advertiser, Environment, Event, build_ra, handle, send, shutdown, received, hook, inconsistent,
  handle-IsConsistent, shutdown_lem, send_lem,
}
use corerad.Tests.Data.{world, parsed_interface, empty_ra}

abbrev pub loud : Interface
loud = record parsed_interface { plugins = mtu (pos 1500) ∷ [] }

abbrev pub mtu_option : List NdpOption
mtu_option = Ndp.mtu (record { ref = 0; mtu = 1500 }) ∷ []

unfoldable pub loud_ra : RouterAdvertisement
unfolding base_ra
loud_ra = push_options (base_ra loud) mtu_option

-- Not forwarding, so the router lifetime is zeroed and reported.
router_advertisement_run :
    router_advertisement world 0 loud false
    ≡ ok (record loud_ra { router_lifetime = pos 0 }, interface_not_forwarding ∷ [])
unfolding router_advertisement corerad.Config.Advertise.apply_all corerad.Plugin.Apply.apply base_ra
    corerad.Plugin.Apply.to_u32 loud_ra
router_advertisement_run = refl

router_advertisement_example :
    ((os : List NdpOption) × (ra : RouterAdvertisement) × (ms : List Misconfiguration)
      × (contributions world 0 loud.plugins ≡ ok os)
      × (router_advertisement world 0 loud false ≡ ok (ra, ms))
      × IsConfigured loud ra
      × (ra.options ≡ os)
      × IsLifetime loud false ra ms)
    ⊎ ((e : ConfigError) × (contributions world 0 loud.plugins ≡ err e)
        × (router_advertisement world 0 loud false ≡ err e))
    ⊎ ((contributions world 0 loud.plugins ≡ panic)
        × (router_advertisement world 0 loud false ≡ panic))
router_advertisement_example = router_advertisement_lem world 0 loud false

multicast_delay_example :
    (k : ℕ) × (multicast_delay 1600000000 0 (pos 200000000000) (pos 600000000000)
      ≡ ok (pos (k * second)))
    × (2 * (k * second) ≤ 2 * 600000000000 + second)
    × ((0 < 3) → k ≤ 16)
    × ((2 * 200000000000 ≤ 2 * (k * second) + second) ⊎ ((0 < 3) × (k ≡ 16)))
multicast_delay_example =
    multicast_delay_bounds 1600000000 0 200000000000 600000000000 (omega arith) (inl (omega arith))

-- Requests at 10.0, 13.1 and 13.2 seconds, at least 3 seconds apart: the second is sent at once.
abbrev at : ℕ → ℤ
at tenths = pos (tenths * 100000000)

first_run : schedule_request (at 30) 0 (at 100) (at 131) all_nodes ≡ ok (at 131, at 131)
unfolding schedule_request Addr.is_multicast ◌+ℤ◌ ◌-ℤ◌
first_run = refl

second_run : schedule_request (at 30) 0 (at 131) (at 132) all_nodes ≡ ok (at 132, at 162)
unfolding schedule_request Addr.is_multicast ◌+ℤ◌ ◌-ℤ◌
second_run = refl

third_run : schedule_request (at 30) 0 (at 132) (at 133) all_nodes ≡ ok (at 133, at 163)
unfolding schedule_request Addr.is_multicast ◌+ℤ◌ ◌-ℤ◌
third_run = refl

schedule_request_spaced_example :
    (at 131 +ℤ at 30 ≤ℤ at 162) × (at 30 ≤ℤ at 131 -ℤ at 100 → at 131 +ℤ at 30 ≤ℤ at 162)
unfolding Addr.is_multicast
schedule_request_spaced_example =
    schedule_request_spaced (at 30) (at 100) (at 131) (at 132) 0 0 all_nodes all_nodes (omega arith)
      refl refl first_run second_run

-- The second and the third are 0.1 seconds apart.
schedule_request_close_example :
    (at 163 <ℤ at 162 +ℤ at 30)
    ↔ ((at 132 -ℤ at 131 <ℤ at 30) × (at 133 -ℤ at 132 <ℤ at 30 +ℤ at 30))
unfolding Addr.is_multicast
schedule_request_close_example =
    schedule_request_close (at 30) (at 131) (at 132) (at 133) 0 0 all_nodes all_nodes (omega arith)
      (omega arith) refl refl second_run third_run

abbrev pub environment : Environment
environment = record { world = world; fresh = 0; forwarding = λ _. ok true; write = λ _ _. ok tt }

abbrev pub advertiser : Advertiser
advertiser = record { cfg = loud; has_hook = true; terminate = true }

build_ra_run : build_ra environment loud ≡ ok loud_ra
unfolding build_ra router_advertisement corerad.Config.Advertise.apply_all
    corerad.Plugin.Apply.apply loud_ra base_ra corerad.Plugin.Apply.to_u32
build_ra_run = refl

handle_example :
    (events : List Event) × (handle environment advertiser
        (Messages.router_advertisement empty_ra)
        (v6 1)
      ≡ ok (none_addr, received ∷ events))
    × ((events ≡ []) ↔ IsConsistent loud_ra empty_ra)
    × ((verify_ras loud_ra empty_ra ≡ [] → ⊥)
        → events
          ≡ map inconsistent (verify_ras loud_ra empty_ra)
            ++ (if true then hook loud_ra empty_ra ∷ [] else []))
handle_example = handle-IsConsistent environment advertiser loud_ra empty_ra (v6 1) build_ra_run

pub contributions_run : contributions world 0 loud.plugins ≡ ok mtu_option
unfolding contributions contribution corerad.Plugin.Apply.to_u32
contributions_run = refl

shutdown_example :
    (ra : RouterAdvertisement) × (shutdown environment advertiser ≡ ok ((ra, all_nodes) ∷ []))
    × (ra.router_lifetime ≡ pos 0)
    × (ra.options ≡ mtu_option)
shutdown_example =
    shutdown_lem environment advertiser true mtu_option refl refl refl contributions_run (λ _. refl)

send_run : send environment all_nodes loud ≡ ok ((loud_ra, all_nodes) ∷ [])
unfolding send build_ra router_advertisement corerad.Config.Advertise.apply_all
    corerad.Plugin.Apply.apply loud_ra base_ra corerad.Plugin.Apply.to_u32
send_run = refl

abbrev written : List (RouterAdvertisement × Addr)
written = (loud_ra, all_nodes) ∷ []

send_example :
    (((loud.unicast_only && Addr.is_multicast all_nodes) ≡ true) × (written ≡ []))
    ⊎ (((loud.unicast_only && Addr.is_multicast all_nodes) ≡ false)
        × (ra : RouterAdvertisement) × (build_ra environment loud ≡ ok ra)
        × (environment.write ra all_nodes ≡ ok tt)
        × (written ≡ (ra, all_nodes) ∷ []))
send_example = send_lem environment all_nodes loud send_run
