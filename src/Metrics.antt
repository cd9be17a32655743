-- ===== src/Metrics.antt =====
-- The metrics that a scrape computes (constScrape and collectMetrics in internal/corerad/metrics.go).
pub mod Shown
pub mod Scraped
pub mod Registered
use corerad.Common.{
  ℕ, Bool, true, false, String, List, [], ◌∷◌, ◌++◌, map, Option, some, none, Result, ok, err,
  panic, ◌>>=◌, wrap_err, map_result, if◌then◌else◌,
}
use corerad.Common.Int.{ℤ, pos}
use corerad.Netip.Addr.{Addr}
use corerad.Netip.Prefix.{Prefix, prefix_from}
use corerad.Ndp
use corerad.Ndp.{
  PrefixInformation, RouteInformation, RecursiveDnsServer, DnsSearchList, RouterAdvertisement,
}
use corerad.System.{Error, World}
use corerad.Config.Types.{Interface, ConfigError, Misconfiguration, interface_not_forwarding}
use corerad.Config.Advertise
use corerad.Verify.Problems.{pick, as_prefix, as_route, as_rdnss, as_dnssl}

-- The names of the metrics, by what they measure; a name that collectMetrics does not know is the last.
pub data ConstMetric : Type 0 where
  ifi_advertising ifi_autoconfiguration ifi_forwarding ifi_monitoring : ConstMetric
  adv_misconfiguration adv_dnssl_lifetime : ConstMetric
  adv_prefix_autonomous adv_prefix_on_link adv_prefix_valid adv_prefix_preferred : ConstMetric
  adv_rdnss_lifetime adv_route_lifetime : ConstMetric
  unhandled : String → ConstMetric

-- The label beside the interface, by what its text is made of.
pub data Label : Type 0 where
  no_label : Label
  details : String → Label
  domains : List String → Label
  servers : List Addr → Label
  prefix : Prefix → Label

-- boolFloat of a flag, or the seconds of a duration, which is in nanoseconds here.
pub data Value : Type 0 where
  flag : Bool → Value
  seconds : ℤ → Value

pub record Sample : Type 0 where
  pub metric : ConstMetric
  pub interface : String
  pub label : Label
  pub value : Value

pub record MetricsContext : Type 0 where
  pub interface : String
  pub advertising : Bool
  pub autoconfiguration : Bool
  pub forwarding : Bool
  pub monitoring : Bool
  pub advertisement : Option RouterAdvertisement
  pub misconfigurations : List Misconfiguration

-- The options of the advertisement, if there is one, that pick returns.
unfoldable pub options_of : {T : Type 0} → (Ndp.NdpOption → Option T) → MetricsContext → List T
options_of assert mctx = elim mctx.advertisement [ none ↦ [] | some ra ↦ pick assert ra.options ]

module _ (m : ConstMetric) (mctx : MetricsContext) where
  sample : Label → Value → Sample
  sample l v = record { metric = m; interface = mctx.interface; label = l; value = v }

  prefix_sample : (PrefixInformation → Value) → PrefixInformation → Sample
  unfolding sample
  prefix_sample value p = sample (prefix (prefix_from p.prefix p.prefix_length)) (value p)

  route_sample : RouteInformation → Sample
  unfolding sample
  route_sample r = sample (prefix (prefix_from r.prefix r.prefix_length)) (seconds r.route_lifetime)

-- One turn of the loop over the metrics; `panic` for a metric that is not handled.
unfoldable pub collect_metric : MetricsContext → ConstMetric → Result Error (List Sample)
unfolding sample prefix_sample route_sample
collect_metric mctx ifi_advertising =
    ok (sample ifi_advertising mctx no_label (flag mctx.advertising) ∷ [])
collect_metric mctx ifi_autoconfiguration =
    ok (sample ifi_autoconfiguration mctx no_label (flag mctx.autoconfiguration) ∷ [])
collect_metric mctx ifi_forwarding =
    ok (sample ifi_forwarding mctx no_label (flag mctx.forwarding) ∷ [])
collect_metric mctx ifi_monitoring =
    ok (sample ifi_monitoring mctx no_label (flag mctx.monitoring) ∷ [])
collect_metric mctx adv_misconfiguration = ok (
    map (λ _. sample adv_misconfiguration mctx (details "interface_not_forwarding") (flag true))
      mctx.misconfigurations)
collect_metric mctx adv_dnssl_lifetime = ok (
    map (λ d. sample adv_dnssl_lifetime mctx (domains d.domain_names) (seconds d.lifetime))
      (options_of as_dnssl mctx))
collect_metric mctx adv_prefix_autonomous = ok (
    map (prefix_sample adv_prefix_autonomous mctx (λ p. flag p.autonomous_address_configuration))
      (options_of as_prefix mctx))
collect_metric mctx adv_prefix_on_link =
    ok (
      map (prefix_sample adv_prefix_on_link mctx (λ p. flag p.on_link)) (options_of as_prefix mctx))
collect_metric mctx adv_prefix_valid = ok (
    map (prefix_sample adv_prefix_valid mctx (λ p. seconds p.valid_lifetime))
      (options_of as_prefix mctx))
collect_metric mctx adv_prefix_preferred = ok (
    map (prefix_sample adv_prefix_preferred mctx (λ p. seconds p.preferred_lifetime))
      (options_of as_prefix mctx))
collect_metric mctx adv_rdnss_lifetime = ok (
    map (λ r. sample adv_rdnss_lifetime mctx (servers r.servers) (seconds r.lifetime))
      (options_of as_rdnss mctx))
collect_metric mctx adv_route_lifetime =
    ok (map (route_sample adv_route_lifetime mctx) (options_of as_route mctx))
collect_metric mctx (unhandled name) = panic

unfoldable pub concat : List (List Sample) → List Sample
concat [] = []
concat (xs ∷ xss) = xs ++ concat xss

-- collectMetrics, over the registered metrics in the order of the loop.
unfoldable pub collect_metrics : List ConstMetric → MetricsContext → Result Error (List Sample)
unfolding concat
collect_metrics metrics mctx = do
  samples ← map_result (collect_metric mctx) metrics
  ok (concat samples)

-- Why a scrape stops: it reports the first error under the metric of the forwarding state.
pub data ScrapeError : Type 0 where
  autoconf_failed forwarding_failed : Error → ScrapeError
  generate_failed : ConfigError → ScrapeError

-- At one moment of the system, with its reads of the sysctl files.
module _ (w : World) (fresh : ℕ) (autoconf forwarding : String → Result Error Bool) where
  unfoldable pub context_of : Interface → Result ScrapeError MetricsContext
  context_of ifi = do
    auto ← wrap_err autoconf_failed (autoconf ifi.name)
    fwd ← wrap_err forwarding_failed (forwarding ifi.name)
    (ra, ms) ←
        if ifi.advertise
        then (do
          (ra, ms) ← wrap_err generate_failed (Advertise.router_advertisement w fresh ifi fwd)
          ok (some ra, ms))
        else ok (none, [])
    ok (record {
      interface = ifi.name;
      advertising = ifi.advertise;
      autoconfiguration = auto;
      forwarding = fwd;
      monitoring = ifi.monitor;
      advertisement = ra;
      misconfigurations = ms;
    })

  -- constScrape: what it returns, and the samples that it has collected by then.
  unfoldable pub const_scrape :
      List ConstMetric → List Interface → Result ScrapeError (Unit {0}) × List Sample
  const_scrape metrics [] = (ok tt, [])
  const_scrape metrics (ifi ∷ ifis) = elim (context_of ifi) [
    | err e ↦ (err e, [])
    | panic ↦ (panic, [])
    | ok mctx ↦ elim (collect_metrics metrics mctx) [
      | ok samples ↦ let (result, rest) = const_scrape metrics ifis in (result, samples ++ rest)
      | err e ↦ (panic, [])
      | panic ↦ (panic, [])
    ]
  ]
