-- ===== src/Metrics/Shown.antt =====
-- What a scrape shows of an interface, from what it has gathered of it.
use corerad.Common.{◌≡◌, refl, Bool, true, false, List, [], ◌∷◌, map, some, none, ok, map_result}
use corerad.Netip.Prefix.{prefix_from}
use corerad.Ndp
use corerad.Ndp.{RouterAdvertisement}
use corerad.Config.Types.{Interface, Misconfiguration}
use corerad.Verify.Problems.{pick, as_prefix, as_route, as_rdnss, as_dnssl}
use corerad.Metrics.{
  ConstMetric, Label, Value, Sample, MetricsContext, collect_metric, collect_metrics, concat,
  options_of, ifi_advertising, ifi_autoconfiguration, ifi_forwarding, ifi_monitoring,
  adv_misconfiguration, adv_dnssl_lifetime, adv_prefix_autonomous, adv_prefix_on_link,
  adv_prefix_valid, adv_prefix_preferred, adv_rdnss_lifetime, adv_route_lifetime, no_label, details,
  domains, servers, prefix, flag, seconds,
}

-- The metrics that NewMetrics registers, in one of the orders in which the loop may visit them.
abbrev pub registered : List ConstMetric
registered =
    ifi_advertising ∷ ifi_monitoring ∷ ifi_autoconfiguration ∷ ifi_forwarding ∷ adv_misconfiguration
    ∷ adv_dnssl_lifetime ∷ adv_prefix_autonomous ∷ adv_prefix_on_link ∷ adv_prefix_valid
    ∷ adv_prefix_preferred ∷ adv_rdnss_lifetime ∷ adv_route_lifetime ∷ []

-- What a scrape shows of an advertising interface and its advertisement.
module _ (ifi : Interface) (auto fwd : Bool) (ra : RouterAdvertisement)
    (ms : List Misconfiguration) where
  abbrev at : ConstMetric → Label → Value → Sample
  at m l v = record { metric = m; interface = ifi.name; label = l; value = v }

  abbrev of_prefixes : ConstMetric → (Ndp.PrefixInformation → Value) → List Sample
  of_prefixes m value =
      map (λ p. at m (prefix (prefix_from p.prefix p.prefix_length)) (value p))
        (pick as_prefix ra.options)

  unfoldable pub shown : List Sample
  unfolding concat
  shown = concat (
      (at ifi_advertising no_label (flag true) ∷ [])
      ∷ (at ifi_monitoring no_label (flag ifi.monitor) ∷ [])
      ∷ (at ifi_autoconfiguration no_label (flag auto) ∷ [])
      ∷ (at ifi_forwarding no_label (flag fwd) ∷ [])
      ∷ map (λ _. at adv_misconfiguration (details "interface_not_forwarding") (flag true)) ms
      ∷ map (λ d. at adv_dnssl_lifetime (domains d.domain_names) (seconds d.lifetime))
          (pick as_dnssl ra.options)
      ∷ of_prefixes adv_prefix_autonomous (λ p. flag p.autonomous_address_configuration)
      ∷ of_prefixes adv_prefix_on_link (λ p. flag p.on_link)
      ∷ of_prefixes adv_prefix_valid (λ p. seconds p.valid_lifetime)
      ∷ of_prefixes adv_prefix_preferred (λ p. seconds p.preferred_lifetime)
      ∷ map (λ r. at adv_rdnss_lifetime (servers r.servers) (seconds r.lifetime))
          (pick as_rdnss ra.options)
      ∷ map
          (λ r.
            at adv_route_lifetime (prefix (prefix_from r.prefix r.prefix_length))
              (seconds r.route_lifetime))
          (pick as_route ra.options)
      ∷ [])

  abbrev pub context : MetricsContext
  context = record {
    interface = ifi.name;
    advertising = true;
    autoconfiguration = auto;
    forwarding = fwd;
    monitoring = ifi.monitor;
    advertisement = some ra;
    misconfigurations = ms;
  }

  pub collect_lem : collect_metrics registered context ≡ ok shown
  unfolding collect_metrics collect_metric options_of concat map_result shown
  collect_lem = refl

-- What a scrape shows of an interface that is not advertised.
module _ (ifi : Interface) (auto fwd : Bool) where
  abbrev of_flag : ConstMetric → Bool → Sample
  of_flag m b = record { metric = m; interface = ifi.name; label = no_label; value = flag b }

  unfoldable pub shown_silent : List Sample
  shown_silent =
      of_flag ifi_advertising false
      ∷ of_flag ifi_monitoring ifi.monitor
      ∷ of_flag ifi_autoconfiguration auto
      ∷ of_flag ifi_forwarding fwd
      ∷ []

  abbrev pub silent_context : MetricsContext
  silent_context = record {
    interface = ifi.name;
    advertising = false;
    autoconfiguration = auto;
    forwarding = fwd;
    monitoring = ifi.monitor;
    advertisement = none;
    misconfigurations = [];
  }

  pub collect_silent_lem : collect_metrics registered silent_context ≡ ok shown_silent
  unfolding collect_metrics collect_metric options_of concat map_result shown_silent
  collect_silent_lem = refl
