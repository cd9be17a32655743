-- ===== src/Config/Plugins/Disjoint.antt =====
-- The plugins of an accepted interface: their order, and what each satisfies (parsePlugins).
use corerad.Common.{
  ◌≡◌, refl, Bool, false, not, List, [], ◌∷◌, ◌++◌, map, Option, some, none, arith, Result, ok,
  ◌>>=◌, map_result, wrap_err, Zipped, AllPairs, Option-cases, inl, inr, Result-cases, ◌==◌,
  >>=-eq-ok, refuse, sym, ◌||◌, map_result-Zipped,
}
use corerad.Common.Int.{ℤ, pos, ◌≤ℤ◌, ltb_ℤ, int_eq}
use corerad.Netip.Prefix
use corerad.Plugin.Types.{
  Plugin, PrefixPlugin, RoutePlugin, RdnssPlugin, DnsslPlugin, prefix, route, rdnss, dnssl, mtu,
  lla,
}
use corerad.Config.Types.{
  RawInterface, RawPrefix, RawRoute, ConfigError, Library, in_prefix, in_route, in_rdnss, in_dnssl,
}
use corerad.Config.Overlap.{find_clash, find_clash-AllPairs}
use corerad.Config.Options.{parse_prefix, parse_route, parse_rdnss, parse_dnssl, or_true}
use corerad.Config.Plugins.{
  prefixes_clash, routes_clash, parse_prefixes, parse_routes, parse_captive_portal, parse_pref64,
  parse_plugins, when, refuse_clash,
}

refuse_clash-eq-ok :
    {A : Type 0} (f : A × A → ConfigError) (o : Option (A × A))
    → refuse_clash f o ≡ ok tt
    → o ≡ none
refuse_clash-eq-ok f none h = refl
refuse_clash-eq-ok f (some c) h = cc

-- `parse_all` then `find_clash`: what an accepted slice satisfies.
accepted_slice :
    {R A : Type 0} (f : R → Result ConfigError A) (clash : A → A → Bool) (e : A × A → ConfigError)
    (raw : List R) {xs : List A}
    → (map_result f raw >>= λ ys. refuse_clash e (find_clash clash ys) >>= λ _. ok ys) ≡ ok xs
    → Zipped (λ r x. f r ≡ ok x) raw xs × AllPairs (λ x y. clash x y ≡ false) xs
accepted_slice f clash e raw {xs} h = elim (Result-cases (map_result f raw)) [
  | inl (ys, p) ↦ elim (Option-cases (find_clash clash ys)) [
    | inl q ↦
        let s : ys ≡ xs = cc (rw (p, q) at h) in
        rw (← s) (map_result-Zipped f raw p, find_clash-AllPairs clash ys q)
    | inr (c, q) ↦ cc (rw (p, q) at h)
  ]
  | inr bad ↦ absurd (ground arith)
]

ok_inj : {E A : Type 0} {x y : A} → Path (Result E A) (ok x) (ok y) → x ≡ y
ok_inj h = cc

mtu_in_range :
    (m : ℤ) (e : ConfigError) {u : Unit {0}}
    → refuse (ltb_ℤ m (pos 0) || ltb_ℤ (pos 65536) m) e ≡ ok u
    → (pos 0 ≤ℤ m) × (m ≤ℤ pos 65536)
mtu_in_range m e h = ground arith

module _ (lib : Library) (ifi : RawInterface) (max_interval epoch : ℤ) where
  -- The parts from which an accepted interface's plugins are put together.
  pub record IsAssembled (plugins : List Plugin) : Type 0 where
    pub prefixes : List PrefixPlugin
    pub routes : List RoutePlugin
    pub rdnsses : List RdnssPlugin
    pub dnssls : List DnsslPlugin
    pub portals : List Plugin
    pub pref64s : List Plugin
    pub in_order :
        plugins
        ≡ map prefix prefixes
          ++ (map route routes
              ++ (map rdnss rdnsses
                  ++ (map dnssl dnssls
                      ++ (when (not (ifi.mtu == pos 0)) (mtu ifi.mtu ∷ [])
                          ++ (when (or_true ifi.source_lla) (lla none ∷ [])
                              ++ (portals ++ pref64s))))))
    pub each_prefix :
        Zipped
          (λ r p. wrap_err (in_prefix r.prefix) (parse_prefix lib r epoch) ≡ ok p)
          ifi.prefixes
          prefixes
    pub disjoint_prefixes : AllPairs (λ p q. Prefix.overlaps p.prefix q.prefix ≡ false) prefixes
    pub each_route :
        Zipped
          (λ r p. wrap_err (in_route r.prefix) (parse_route lib r epoch) ≡ ok p)
          ifi.routes
          routes
    pub disjoint_routes : AllPairs (λ p q. routes_clash p q ≡ false) routes
    pub each_rdnss :
        Zipped (λ r p. wrap_err in_rdnss (parse_rdnss lib r max_interval) ≡ ok p) ifi.rdnss rdnsses
    pub each_dnssl :
        Zipped (λ r p. wrap_err in_dnssl (parse_dnssl lib r max_interval) ≡ ok p) ifi.dnssl dnssls
    pub mtu_range : (pos 0 ≤ℤ ifi.mtu) × (ifi.mtu ≤ℤ pos 65536)
    pub portal : parse_captive_portal lib ifi.captive_portal ≡ ok portals
    pub each_pref64 : Zipped (λ r p. parse_pref64 lib max_interval r ≡ ok p) ifi.pref64 pref64s

  parse_prefixes_lem :
      (raw : List RawPrefix) {ps : List PrefixPlugin}
      → parse_prefixes lib raw epoch ≡ ok ps
      → Zipped (λ r p. wrap_err (in_prefix r.prefix) (parse_prefix lib r epoch) ≡ ok p) raw ps
        × AllPairs (λ p q. Prefix.overlaps p.prefix q.prefix ≡ false) ps
  unfolding parse_prefixes
  parse_prefixes_lem raw h = accepted_slice _ prefixes_clash _ raw h

  parse_routes_lem :
      (raw : List RawRoute) {rs : List RoutePlugin}
      → parse_routes lib raw epoch ≡ ok rs
      → Zipped (λ r p. wrap_err (in_route r.prefix) (parse_route lib r epoch) ≡ ok p) raw rs
        × AllPairs (λ p q. routes_clash p q ≡ false) rs
  unfolding parse_routes
  parse_routes_lem raw h = accepted_slice _ routes_clash _ raw h

  -- The plugins of an accepted interface are, in this order, one for each prefix, route, RDNSS and
  -- DNSSL stanza in the order of the file, the MTU unless it is 0, the source link-layer address
  -- unless it is off, the captive portal and one PREF64 for each of its stanzas; no two prefixes
  -- overlap, no two routes other than the wildcard do, and the MTU lies between 0 and 65536.
  pub parse_plugins-IsAssembled :
      {plugins : List Plugin}
      → parse_plugins lib ifi max_interval epoch ≡ ok plugins
      → IsAssembled plugins
  unfolding parse_plugins
  parse_plugins-IsAssembled {plugins} h =
      let (ps, e1, h1) = >>=-eq-ok _ _ h in
      let (rs, e2, h2) = >>=-eq-ok _ _ h1 in
      let (ds, e3, h3) = >>=-eq-ok _ _ h2 in
      let (ls, e4, h4) = >>=-eq-ok _ _ h3 in
      let (u, e5, h5) = >>=-eq-ok _ _ h4 in
      let (cs, e6, h6) = >>=-eq-ok _ _ h5 in
      let (qs, e7, h7) = >>=-eq-ok _ _ h6 in
      record {
        prefixes = ps;
        routes = rs;
        rdnsses = ds;
        dnssls = ls;
        portals = cs;
        pref64s = qs;
        in_order = ok_inj (sym h7);
        each_prefix = (parse_prefixes_lem _ e1).0;
        disjoint_prefixes = (parse_prefixes_lem _ e1).1;
        each_route = (parse_routes_lem _ e2).0;
        disjoint_routes = (parse_routes_lem _ e2).1;
        each_rdnss = map_result-Zipped _ _ e3;
        each_dnssl = map_result-Zipped _ _ e4;
        mtu_range = mtu_in_range _ _ e5;
        portal = e6;
        each_pref64 = map_result-Zipped _ _ e7;
      }
