-- ===== src/Monitor.antt =====
-- The Monitor (internal/corerad/monitor.go): the metrics that a received message sets.
pub mod Gauges
pub mod Running
use corerad.Common.{
  ℕ, suc, ◌/◌, Bool, true, false, ◌&&◌, List, [], ◌∷◌, ◌++◌, Option, some, none, ◌==◌,
  if◌then◌else◌,
}
use corerad.Common.Int.{ℤ, pos, negsuc, ◌+ℤ◌, ◌-ℤ◌, int_eq}
use corerad.Netip.Prefix.{Prefix, prefix_eq, prefix_from}
use corerad.Ndp.{PrefixInformation, RouterAdvertisement}
use corerad.Verify.Problems.{pick, as_prefix}
use corerad.Advertiser.Messages.{Message, router_solicitation, router_advertisement, other}

-- The gauges of one interface and one router, those of a prefix with its label.
pub data Gauge : Type 0 where
  flag_managed flag_other default_route_expiration : Gauge
  prefix_autonomous prefix_on_link prefix_preferred_expiration prefix_valid_expiration :
      Prefix → Gauge

abbrev pub gauge_beq : Gauge → Gauge → Bool
gauge_beq flag_managed flag_managed = true
gauge_beq flag_other flag_other = true
gauge_beq default_route_expiration default_route_expiration = true
gauge_beq (prefix_autonomous p) (prefix_autonomous q) = p == q
gauge_beq (prefix_on_link p) (prefix_on_link q) = p == q
gauge_beq (prefix_preferred_expiration p) (prefix_preferred_expiration q) = p == q
gauge_beq (prefix_valid_expiration p) (prefix_valid_expiration q) = p == q
gauge_beq _ _ = false

-- One call of a metric: the counter of received messages, or a gauge with its value.
pub data Sample : Type 0 where
  received : Sample
  set : Gauge → ℤ → Sample

abbrev pub bool_float : Bool → ℤ
bool_float b = if b then pos 1 else pos 0

-- Time.Unix, which rounds down, with the seconds between the zero Time and 1970.
unfoldable pub unix : ℤ → ℤ
unix (pos n) = pos (n / 1000000000) -ℤ pos 62135596800
unix (negsuc n) = negsuc (n / 1000000000) -ℤ pos 62135596800

-- cidrStr, whose text a prefix determines.
unfoldable pub cidr : PrefixInformation → Prefix
cidr p = prefix_from p.prefix p.prefix_length

-- The loop over the prefix options.
unfoldable pub prefix_samples : ℤ → List PrefixInformation → List Sample
prefix_samples now [] = []
prefix_samples now (p ∷ ps) =
    set (prefix_autonomous (cidr p)) (bool_float p.autonomous_address_configuration)
    ∷ set (prefix_on_link (cidr p)) (bool_float p.on_link)
    ∷ set (prefix_preferred_expiration (cidr p)) (unix (now +ℤ p.preferred_lifetime))
    ∷ set (prefix_valid_expiration (cidr p)) (unix (now +ℤ p.valid_lifetime))
    ∷ prefix_samples now ps

-- Monitor.handle: its calls of metrics, in order.
unfoldable pub handle : ℤ → Message → List Sample
handle now (router_advertisement ra) =
    received
      ∷ set flag_managed (bool_float ra.managed_configuration)
      ∷ set flag_other (bool_float ra.other_configuration)
      ∷ (if ra.router_lifetime == pos 0
          then []
          else set default_route_expiration (unix (now +ℤ ra.router_lifetime)) ∷ [])
    ++ prefix_samples now (pick as_prefix ra.options)
handle now (router_solicitation os) = received ∷ []
handle now other = received ∷ []

-- What a gauge shows after the samples, from what it showed before them.
unfoldable pub reading : Gauge → List Sample → Option ℤ → Option ℤ
reading g [] before = before
reading g (received ∷ rest) before = reading g rest before
reading g (set h v ∷ rest) before = reading g rest (if gauge_beq g h then some v else before)
