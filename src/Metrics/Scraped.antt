-- ===== src/Metrics/Scraped.antt =====
-- A scrape shows the advertisement that the advertiser sends.
use corerad.Common.{
  ap, ◌≢◌, ◌⊎◌, Result-cases, ◌≡◌, refl, subst, Bool, true, false, Bool-cases, inl, inr, String,
  List, [], ◌∷◌, ◌++◌, All, Result, ok, ok_inj, wrap_err, wrap_err-eq-ok, >>=-eq-ok, if◌then◌else◌,
}
use corerad.Ndp.{RouterAdvertisement}
use corerad.System.{Error}
use corerad.Config.Types.{Interface, Misconfiguration}
use corerad.Config.Advertise.{router_advertisement}
use corerad.Advertiser.Messages
use corerad.Advertiser.Messages.{Environment, build_ra}
use corerad.Metrics.{ScrapeError, Sample, MetricsContext, collect_metrics, context_of, const_scrape}
use corerad.Metrics.Shown.{
  registered, shown, shown_silent, context, silent_context, collect_lem, collect_silent_lem,
}

module _ (env : Environment) (autoconf : String → Result Error Bool) where
  build_ra-inv :
      (ifi : Interface) (fwd : Bool) {ra : RouterAdvertisement}
      → env.forwarding ifi.name ≡ ok fwd
      → build_ra env ifi ≡ ok ra
      → (ms : List Misconfiguration) × (router_advertisement env.world env.fresh ifi fwd
          ≡ ok (ra, ms))
  unfolding build_ra
  build_ra-inv ifi fwd {ra} f h =
      let (p, q, r) =
        >>=-eq-ok
          (wrap_err Messages.generate_failed (router_advertisement env.world env.fresh ifi fwd)) _
          (rw f at h) in
      let e : p.0 ≡ ra = ok_inj r in
      (
        p.1,
        subst (λ x. router_advertisement env.world env.fresh ifi fwd ≡ ok (x, p.1)) e
            (wrap_err-eq-ok _ _ q),
      )

  context_lem :
      (ifi : Interface) (auto fwd : Bool) (ra : RouterAdvertisement) (ms : List Misconfiguration)
      → ifi.advertise ≡ true
      → autoconf ifi.name ≡ ok auto
      → env.forwarding ifi.name ≡ ok fwd
      → router_advertisement env.world env.fresh ifi fwd ≡ ok (ra, ms)
      → context_of env.world env.fresh autoconf env.forwarding ifi ≡ ok (context ifi auto fwd ra ms)
  unfolding context_of
  context_lem ifi auto fwd ra ms ad au f e = rw (au, f, e, ad, context_of) refl

  -- What a scrape needs of an interface: its state can be read, and its advertisement can be built if
  -- it is advertised.
  abbrev pub IsReadable : Interface → Type 0
  IsReadable ifi =
      (auto : Bool) × (fwd : Bool) × (autoconf ifi.name ≡ ok auto)
      × (env.forwarding ifi.name ≡ ok fwd)
      × (ifi.advertise ≡ true → (ra : RouterAdvertisement) × (build_ra env ifi ≡ ok ra))

  -- What a scrape shows of the interfaces, in their order.
  pub data IsShown : List Interface → List Sample → Type 0 where
    nil : IsShown [] []
    advertised :
        {ifi : Interface} {ifis : List Interface} {rest : List Sample} {auto fwd : Bool}
        {ra : RouterAdvertisement} {ms : List Misconfiguration}
        → ifi.advertise ≡ true
        → autoconf ifi.name ≡ ok auto
        → env.forwarding ifi.name ≡ ok fwd
        → build_ra env ifi ≡ ok ra
        → router_advertisement env.world env.fresh ifi fwd ≡ ok (ra, ms)
        → IsShown ifis rest
        → IsShown (ifi ∷ ifis) (shown ifi auto fwd ra ms ++ rest)
    silent :
        {ifi : Interface} {ifis : List Interface} {rest : List Sample} {auto fwd : Bool}
        → ifi.advertise ≡ false
        → autoconf ifi.name ≡ ok auto
        → env.forwarding ifi.name ≡ ok fwd
        → IsShown ifis rest
        → IsShown (ifi ∷ ifis) (shown_silent ifi auto fwd ++ rest)

  abbrev scrape : List Interface → Result ScrapeError (Unit {0}) × List Sample
  scrape = const_scrape env.world env.fresh autoconf env.forwarding registered

  scrape_next :
      (ifi : Interface) (ifis : List Interface) {c : MetricsContext} {here rest : List Sample}
      → context_of env.world env.fresh autoconf env.forwarding ifi ≡ ok c
      → collect_metrics registered c ≡ ok here
      → scrape ifis ≡ (ok tt, rest)
      → scrape (ifi ∷ ifis) ≡ (ok tt, here ++ rest)
  unfolding const_scrape
  scrape_next ifi ifis a b h = rw (a, const_scrape, b) (rw h refl)

  silent_context_lem :
      (ifi : Interface) (auto fwd : Bool)
      → ifi.advertise ≡ false
      → autoconf ifi.name ≡ ok auto
      → env.forwarding ifi.name ≡ ok fwd
      → context_of env.world env.fresh autoconf env.forwarding ifi
        ≡ ok (silent_context ifi auto fwd)
  unfolding context_of
  silent_context_lem ifi auto fwd ad au f = rw (au, f, ad, context_of) refl

  build_ra_ok :
      (ifi : Interface) (fwd : Bool) {v : RouterAdvertisement × List Misconfiguration}
      → env.forwarding ifi.name ≡ ok fwd
      → router_advertisement env.world env.fresh ifi fwd ≡ ok v
      → build_ra env ifi ≡ ok v.0
  unfolding build_ra
  build_ra_ok ifi fwd f h = rw (f, build_ra, h) refl

  taken : {A : Type 0} (b : Bool) (x y : A) {z : A} → b ≡ true → (if b then x else y) ≡ z → x ≡ z
  taken true x y b h = h
  taken false x y b h = cc

  context_of-IsReadable :
      (ifi : Interface) {c : MetricsContext}
      → context_of env.world env.fresh autoconf env.forwarding ifi ≡ ok c
      → IsReadable ifi
  unfolding context_of
  context_of-IsReadable ifi h =
      let (auto, q, more) = >>=-eq-ok (wrap_err _ (autoconf ifi.name)) _ h in
      let (fwd, r, rest) = >>=-eq-ok (wrap_err _ (env.forwarding ifi.name)) _ more in
      let (p, z, _) = >>=-eq-ok (if ifi.advertise then _ else _) _ rest in
      let f = wrap_err-eq-ok _ _ r in
      (
        auto,
        fwd,
        wrap_err-eq-ok _ _ q,
        f,
        λ ad.
            let (v, w, _) =
              >>=-eq-ok (wrap_err _ (router_advertisement env.world env.fresh ifi fwd)) _
                (taken ifi.advertise _ _ ad z) in
            (v.0, build_ra_ok ifi fwd f (wrap_err-eq-ok _ _ w)),
      )

  scrape-IsReadable : (ifis : List Interface) → (scrape ifis).0 ≡ ok tt → All IsReadable ifis
  unfolding const_scrape
  scrape-IsReadable [] h = tt
  scrape-IsReadable (ifi ∷ ifis) h =
      elim (Result-cases (context_of env.world env.fresh autoconf env.forwarding ifi)) [
        | inr (inl (e, q)) ↦ cc (rw (q, const_scrape) at h)
        | inr (inr q) ↦ cc (rw (q, const_scrape) at h)
        | inl (c, q) ↦ elim (Result-cases (collect_metrics registered c)) [
          | inl (samples, r) ↦
              (context_of-IsReadable ifi q, scrape-IsReadable ifis (rw (q, r, const_scrape) at h))
          | inr (inl (e, r)) ↦ cc (rw (q, r, const_scrape) at h)
          | inr (inr r) ↦ cc (rw (q, r, const_scrape) at h)
        ]
      ]

  scrape-IsShown :
      (ifis : List Interface)
      → All IsReadable ifis
      → (samples : List Sample) × (scrape ifis ≡ (ok tt, samples)) × IsShown ifis samples
  unfolding const_scrape
  scrape-IsShown [] _ = ([], refl, nil)
  scrape-IsShown (ifi ∷ ifis) ((auto, fwd, au, f, builds), more) =
      let (rest, e, later) = scrape-IsShown ifis more in
      elim (Bool-cases ifi.advertise) [
        | inl ad ↦
            let (ra, h) = builds ad in
            let (ms, r) = build_ra-inv ifi fwd f h in
            (
              shown ifi auto fwd ra ms ++ rest,
              scrape_next ifi ifis (context_lem ifi auto fwd ra ms ad au f r)
                  (collect_lem ifi auto fwd ra ms) e,
              advertised ad au f h r later,
            )
        | inr ad ↦ (
          shown_silent ifi auto fwd ++ rest,
          scrape_next ifi ifis (silent_context_lem ifi auto fwd ad au f)
              (collect_silent_lem ifi auto fwd) e,
          silent ad au f later,
        )
      ]

  unreadable : (ifis : List Interface) → (scrape ifis).0 ≢ ok tt → ¬ All IsReadable ifis
  unreadable ifis n a = n (ap (λ r. r.0) (scrape-IsShown ifis a).1)

  -- A scrape of the registered metrics returns no error just where the state of every interface can
  -- be read and the advertisement of every advertising one can be built. Then it shows the interfaces
  -- in order: of an advertising one its flags and the flags and lifetimes of the options of exactly
  -- the advertisement that the advertiser builds, and a sample for each of its misconfigurations; of
  -- any other only its flags.
  pub const_scrape-build_ra :
      (ifis : List Interface)
      → (All IsReadable ifis
          × (samples : List Sample) × (const_scrape env.world env.fresh autoconf env.forwarding
                registered ifis
              ≡ (ok tt, samples))
          × IsShown ifis samples)
        ⊎ ((¬ All IsReadable ifis)
            × ((const_scrape env.world env.fresh autoconf env.forwarding registered ifis).0
                ≢ ok tt))
  const_scrape-build_ra ifis = elim (Result-cases (scrape ifis).0) [
    | inl (u, q) ↦
        let a = scrape-IsReadable ifis q in
        let (samples, e, s) = scrape-IsShown ifis a in inl (a, samples, e, s)
    | inr (inl (e, q)) ↦ inr (unreadable ifis (λ h. cc), λ h. cc)
    | inr (inr q) ↦ inr (unreadable ifis (λ h. cc), λ h. cc)
  ]
