-- ===== src/Tests/Measuring.antt =====
-- What the monitor and a scrape show.
use corerad.Common.{
  ◌≡◌, ◌≢◌, ◌⊎◌, inl, inr, ap, refl, true, false, String, List, [], ◌∷◌, Option, some, none, Result,
  ok, if◌then◌else◌, Bool, ◌==◌, All,
}
use corerad.Common.Int.{ℤ, pos, ◌+ℤ◌, int_eq}
use corerad.Netip.Addr.{v6}
use corerad.Netip.Prefix.{Prefix, prefix6}
use corerad.Ndp.{PrefixInformation, RouterAdvertisement, prefix_information}
use corerad.System.{Error}
use corerad.Config.Types.{Interface}
use corerad.Verify.Problems.{pick, as_prefix}
use corerad.Advertiser.Messages
use corerad.Advertiser.Messages.{build_ra}
use corerad.Monitor.{
  Gauge, handle, reading, unix, default_route_expiration, prefix_valid_expiration,
  prefix_preferred_expiration, flag_other, flag_managed, prefix_autonomous, prefix_on_link,
}
use corerad.Monitor.Gauges.{last_for, shown_flag, reading-handle}
use corerad.Metrics.{Sample, ScrapeError, const_scrape}
use corerad.Metrics.Shown.{registered}
use corerad.Metrics.Scraped.{IsReadable, IsShown, const_scrape-build_ra}
use corerad.Tests.Data.{empty_ra}
use corerad.Tests.Sending.{environment, loud, loud_ra}

-- 2001:db8::/64 for an hour.
abbrev option : PrefixInformation
option = record {
  prefix_length = 64;
  on_link = true;
  autonomous_address_configuration = true;
  valid_lifetime = pos 3600000000000;
  preferred_lifetime = pos 1800000000000;
  prefix = v6 0x20010db8000000000000000000000000;
}

abbrev label : Prefix
label = prefix6 0x20010db8000000000000000000000000 64

-- From a router that is no default router.
abbrev heard : RouterAdvertisement
heard = record empty_ra { options = prefix_information option ∷ [] }

-- 1970-01-01.
abbrev epoch : ℤ
epoch = pos 62135596800000000000

expiry_run :
    reading
      (prefix_valid_expiration label)
      (handle epoch (Messages.router_advertisement heard))
      none
    ≡ some (pos 3600)
unfolding reading handle corerad.Monitor.prefix_samples pick corerad.Monitor.cidr
    corerad.Netip.Prefix.prefix_from unix ◌+ℤ◌ corerad.Common.Int.◌-ℤ◌
expiry_run = refl

reading-handle_example :
    (reading flag_managed (handle epoch (Messages.router_advertisement heard)) (some (pos 7))
      ≡ some (shown_flag heard.managed_configuration))
    × (reading flag_other (handle epoch (Messages.router_advertisement heard)) (some (pos 7))
        ≡ some (shown_flag heard.other_configuration))
    × (reading default_route_expiration
          (handle epoch (Messages.router_advertisement heard))
          (some (pos 7))
        ≡ (if heard.router_lifetime == pos 0
            then some (pos 7)
            else some (unix (epoch +ℤ heard.router_lifetime))))
    × (reading
          (prefix_autonomous label)
          (handle epoch (Messages.router_advertisement heard))
          (some (pos 7))
        ≡ last_for label
            (λ p. shown_flag p.autonomous_address_configuration)
            (pick as_prefix heard.options)
            (some (pos 7)))
    × (reading
          (prefix_on_link label)
          (handle epoch (Messages.router_advertisement heard))
          (some (pos 7))
        ≡ last_for label (λ p. shown_flag p.on_link) (pick as_prefix heard.options) (some (pos 7)))
    × (reading
          (prefix_valid_expiration label)
          (handle epoch (Messages.router_advertisement heard))
          (some (pos 7))
        ≡ last_for label
            (λ p. unix (epoch +ℤ p.valid_lifetime))
            (pick as_prefix heard.options)
            (some (pos 7)))
    × (reading
          (prefix_preferred_expiration label)
          (handle epoch (Messages.router_advertisement heard))
          (some (pos 7))
        ≡ last_for label
            (λ p. unix (epoch +ℤ p.preferred_lifetime))
            (pick as_prefix heard.options)
            (some (pos 7)))
    × (reading flag_other (handle epoch (Messages.router_solicitation [])) (some (pos 7))
        ≡ some (pos 7))
    × (reading flag_other (handle epoch Messages.other) (some (pos 7)) ≡ some (pos 7))
reading-handle_example = reading-handle epoch heard label flag_other [] (some (pos 7))

abbrev autoconf : String → Result Error Bool
autoconf name = ok false

built : build_ra environment loud ≡ ok loud_ra
unfolding build_ra corerad.Config.Advertise.router_advertisement corerad.Config.Advertise.apply_all
    corerad.Plugin.Apply.apply loud_ra corerad.Config.Advertise.base_ra corerad.Plugin.Apply.to_u32
built = refl

-- An interface that is monitored.
abbrev watched : Interface
watched = record loud { name = "eth1"; monitor = true; advertise = false }

readable : All (IsReadable environment autoconf) (loud ∷ watched ∷ [])
readable =
    ((false, true, refl, refl, λ h. (loud_ra, built)), ((false, true, refl, refl, λ h. cc), tt))

abbrev scrape : Result ScrapeError (Unit {0}) × List Sample
scrape =
    const_scrape environment.world environment.fresh autoconf environment.forwarding registered
      (loud ∷ watched ∷ [])

const_scrape-build_ra_example :
    (All (IsReadable environment autoconf) (loud ∷ watched ∷ [])
      × (samples : List Sample) × (scrape ≡ (ok tt, samples))
      × IsShown environment autoconf (loud ∷ watched ∷ []) samples)
    ⊎ ((¬ All (IsReadable environment autoconf) (loud ∷ watched ∷ [])) × (scrape.0 ≢ ok tt))
const_scrape-build_ra_example = const_scrape-build_ra environment autoconf (loud ∷ watched ∷ [])

scrape_run : scrape.0 ≡ ok tt
scrape_run = elim (const_scrape-build_ra environment autoconf (loud ∷ watched ∷ [])) [
  | inl (a, samples, e, s) ↦ ap (λ r. r.0) e
  | inr (n, q) ↦ absurd (n readable)
]
