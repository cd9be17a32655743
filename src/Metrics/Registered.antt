-- ===== src/Metrics/Registered.antt =====
-- The metrics that NewMetrics registers (internal/corerad/metrics.go), and the names by which a scrape
-- visits them.
use corerad.Common.{
  ℕ, ◌≡◌, refl, Bool, String, List, [], ◌∷◌, map, Result, ok, panic, ◌==◌, string_eq, if◌then◌else◌,
  All, All-mem, Memᴰ, length, map_result, Result-cases, inl, inr,
}
use corerad.Common.Int.{ℤ, pos, int_eq}
use corerad.System.{Error, World}
use corerad.Config.Types.{Interface}
use corerad.Monitor.{unix}
use corerad.Metrics.{
  ConstMetric, Label, Sample, MetricsContext, collect_metric, collect_metrics, const_scrape,
  context_of, ifi_advertising, ifi_autoconfiguration, ifi_forwarding, ifi_monitoring,
  adv_misconfiguration, adv_dnssl_lifetime, adv_prefix_autonomous, adv_prefix_on_link,
  adv_prefix_valid, adv_prefix_preferred, adv_rdnss_lifetime, adv_route_lifetime, unhandled,
  no_label, details, domains, servers, prefix,
}

-- A metric of the registry, with the names of its labels.
pub record Registration : Type 0 where
  pub name : String
  pub labels : List String

abbrev of : String → List String → Registration
of name labels = record { name = name; labels = labels }

-- The fields of Metrics that are gauges and counters, in the order of the fields.
unfoldable pub instruments : List Registration
instruments =
    of "corerad_build_info" ("version" ∷ [])
    ∷ of "corerad_build_timestamp_seconds" []
    ∷ of "corerad_messages_received_invalid_total" ("interface" ∷ "message" ∷ [])
    ∷ of "corerad_advertiser_last_multicast_timestamp_seconds" ("interface" ∷ [])
    ∷ of "corerad_advertiser_messages_received_total" ("interface" ∷ "message" ∷ [])
    ∷ of "corerad_advertiser_inconsistencies_total" ("interface" ∷ "details" ∷ "field" ∷ [])
    ∷ of "corerad_advertiser_router_advertisements_total" ("interface" ∷ "type" ∷ [])
    ∷ of "corerad_advertiser_errors_total" ("interface" ∷ "error" ∷ [])
    ∷ of "corerad_monitor_messages_received_total" ("interface" ∷ "host" ∷ "message" ∷ [])
    ∷ of "corerad_monitor_flag_managed" ("interface" ∷ "router" ∷ [])
    ∷ of "corerad_monitor_flag_other" ("interface" ∷ "router" ∷ [])
    ∷ of "corerad_monitor_default_route_expiration_timestamp_seconds" ("interface" ∷ "router" ∷ [])
    ∷ of "corerad_monitor_prefix_autonomous" ("interface" ∷ "prefix" ∷ "router" ∷ [])
    ∷ of "corerad_monitor_prefix_on_link" ("interface" ∷ "prefix" ∷ "router" ∷ [])
    ∷ of "corerad_monitor_prefix_preferred_expiration_timestamp_seconds"
        ("interface" ∷ "prefix" ∷ "router" ∷ [])
    ∷ of "corerad_monitor_prefix_valid_expiration_timestamp_seconds"
        ("interface" ∷ "prefix" ∷ "router" ∷ [])
    ∷ []

-- The calls of ConstGauge.
unfoldable pub const_gauges : List Registration
const_gauges =
    of "corerad_interface_advertising" ("interface" ∷ [])
    ∷ of "corerad_interface_monitoring" ("interface" ∷ [])
    ∷ of "corerad_interface_autoconfiguration" ("interface" ∷ [])
    ∷ of "corerad_interface_forwarding" ("interface" ∷ [])
    ∷ of "corerad_advertiser_misconfiguration" ("interface" ∷ "details" ∷ [])
    ∷ of "corerad_advertiser_dnssl_lifetime_seconds" ("interface" ∷ "domains" ∷ [])
    ∷ of "corerad_advertiser_prefix_autonomous" ("interface" ∷ "prefix" ∷ [])
    ∷ of "corerad_advertiser_prefix_on_link" ("interface" ∷ "prefix" ∷ [])
    ∷ of "corerad_advertiser_prefix_valid_seconds" ("interface" ∷ "prefix" ∷ [])
    ∷ of "corerad_advertiser_prefix_preferred_seconds" ("interface" ∷ "prefix" ∷ [])
    ∷ of "corerad_advertiser_rdnss_lifetime_seconds" ("interface" ∷ "servers" ∷ [])
    ∷ of "corerad_advertiser_route_lifetime_seconds" ("interface" ∷ "route" ∷ [])
    ∷ []

-- The gauges that NewMetrics sets: the version with the value 1, and the time of the build, in
-- seconds since 1970, or 0 for the zero Time. Times are nanoseconds since the zero Time.
unfoldable pub build_gauges : String → ℤ → List (String × List String × ℤ)
unfolding unix
build_gauges version build_time =
    ("corerad_build_info", version ∷ [], pos 1)
    ∷ (
      "corerad_build_timestamp_seconds",
      [],
      if build_time == pos 0 then pos 0 else unix build_time,
    )
    ∷ []

-- The switch of collectMetrics on the name of a metric.
unfoldable pub metric_of : String → ConstMetric
metric_of name =
    if name == "corerad_interface_advertising"
    then ifi_advertising
    else if name == "corerad_interface_autoconfiguration"
    then ifi_autoconfiguration
    else if name == "corerad_interface_forwarding"
    then ifi_forwarding
    else if name == "corerad_interface_monitoring"
    then ifi_monitoring
    else if name == "corerad_advertiser_misconfiguration"
    then adv_misconfiguration
    else if name == "corerad_advertiser_dnssl_lifetime_seconds"
    then adv_dnssl_lifetime
    else if name == "corerad_advertiser_prefix_autonomous"
    then adv_prefix_autonomous
    else if name == "corerad_advertiser_prefix_on_link"
    then adv_prefix_on_link
    else if name == "corerad_advertiser_prefix_valid_seconds"
    then adv_prefix_valid
    else if name == "corerad_advertiser_prefix_preferred_seconds"
    then adv_prefix_preferred
    else if name == "corerad_advertiser_rdnss_lifetime_seconds"
    then adv_rdnss_lifetime
    else if name == "corerad_advertiser_route_lifetime_seconds"
    then adv_route_lifetime
    else unhandled name

-- How many values of labels a sample has: that of the interface, and its own.
abbrev pub label_count : Label → ℕ
label_count no_label = 1
label_count (details s) = 2
label_count (domains ss) = 2
label_count (servers ips) = 2
label_count (prefix p) = 2

-- A registered metric is collected, with values for exactly its labels.
abbrev pub IsCollected : MetricsContext → Registration → Type 0
IsCollected mctx r =
    (ss : List Sample) × (collect_metric mctx (metric_of r.name) ≡ ok ss)
    × All (λ s. label_count s.label ≡ length r.labels) ss

All_of_map :
    {A B : Type 0} (P : B → Type 0) (f : A → B) (xs : List A)
    → ((x : A) → P (f x))
    → All P (map f xs)
All_of_map P f [] h = tt
All_of_map P f (x ∷ xs) h = (h x, All_of_map P f xs h)

module _ (mctx : MetricsContext) where
  all-IsCollected : All (IsCollected mctx) const_gauges
  unfolding const_gauges collect_metric metric_of
  all-IsCollected = (
    (_, refl, (refl, tt)),
    (
      (_, refl, (refl, tt)),
      (
        (_, refl, (refl, tt)),
        (
          (_, refl, (refl, tt)),
          (
            (_, refl, All_of_map _ _ _ (λ x. refl)),
            (
              (_, refl, All_of_map _ _ _ (λ x. refl)),
              (
                (_, refl, All_of_map _ _ _ (λ x. refl)),
                (
                  (_, refl, All_of_map _ _ _ (λ x. refl)),
                  (
                    (_, refl, All_of_map _ _ _ (λ x. refl)),
                    (
                      (_, refl, All_of_map _ _ _ (λ x. refl)),
                      (
                        (_, refl, All_of_map _ _ _ (λ x. refl)),
                        ((_, refl, All_of_map _ _ _ (λ x. refl)), tt),
                      ),
                    ),
                  ),
                ),
              ),
            ),
          ),
        ),
      ),
    ),
  )

  -- Each metric that NewMetrics registers for scrapes is known to the switch of a scrape, and each
  -- sample of it has as many values of labels as the metric has labels.
  pub collect_registered : (r : Registration) → Memᴰ r const_gauges → IsCollected mctx r
  collect_registered r m = All-mem (IsCollected mctx) const_gauges all-IsCollected r m

  metrics_of-collected :
      (rs : List Registration)
      → All (λ r. Memᴰ r const_gauges) rs
      → (sss : List (List Sample)) × (map_result
            (collect_metric mctx)
            (map (λ r. metric_of r.name) rs)
          ≡ ok sss)
  unfolding map_result
  metrics_of-collected [] h = ([], refl)
  metrics_of-collected (r ∷ rs) (m, h) =
      let (ss, q, labels) = collect_registered r m in
      let (sss, p) = metrics_of-collected rs h in (ss ∷ sss, rw (q, p) refl)

module _ (w : World) (fresh : ℕ) (autoconf forwarding : String → Result Error Bool) where
  -- Visiting metrics that NewMetrics registers, in any order and even several times, a scrape panics only
  -- where gathering the context of one of the interfaces does.
  pub const_scrape_panics :
      (rs : List Registration) (ifis : List Interface)
      → All (λ r. Memᴰ r const_gauges) rs
      → (const_scrape w fresh autoconf forwarding (map (λ r. metric_of r.name) rs) ifis).0 ≡ panic
      → (ifi : Interface) × Memᴰ ifi ifis × (context_of w fresh autoconf forwarding ifi ≡ panic)
  unfolding const_scrape collect_metrics
  const_scrape_panics rs [] all h = cc
  const_scrape_panics rs (ifi ∷ ifis) all h =
      elim (Result-cases (context_of w fresh autoconf forwarding ifi)) [
        | inl (mctx, q) ↦
            let (sss, p) = metrics_of-collected mctx rs all in
            let (i, m, r) =
              const_scrape_panics rs ifis all (rw (q, p, const_scrape, collect_metrics) at h) in
            (i, Memᴰ.tail m, r)
        | inr (inl (e, q)) ↦ cc (rw (q, const_scrape) at h)
        | inr (inr q) ↦ (ifi, Memᴰ.head refl, q)
      ]
