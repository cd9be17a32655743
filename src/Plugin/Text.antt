-- ===== src/Plugin/Text.antt =====
-- The methods Name and String of the plugins (internal/plugin/plugin.go), which the Advertiser logs.
pub mod Prepared
use Prim.Native.String.{◌++◌ as concat}
use corerad.Common.{
  ℕ, Bool, String, List, [], ◌∷◌, ◌++◌, map, Option, some, none, Result, ok, err, panic, ◌>>=◌,
  ◌==◌, if◌then◌else◌,
}
use corerad.Common.Int.{ℤ, int_eq}
use corerad.Netip.Addr
use corerad.Netip.Addr.{Addr}
use corerad.Netip.Prefix.{Prefix}
use corerad.Ndp.{Preference}
use corerad.System.{World}
use corerad.Plugin.Types.{
  Plugin, PrefixPlugin, RoutePlugin, RdnssPlugin, DnsslPlugin, PluginError, prefix, route, rdnss,
  dnssl, mtu, lla, captive_portal, pref64,
}
use corerad.Plugin.Prefixes
use corerad.Plugin.Routes
use corerad.Plugin.Rdnss

unfoldable pub name : Plugin → String
name (prefix p) = "prefix"
name (route r) = "route"
name (rdnss r) = "rdnss"
name (dnssl d) = "dnssl"
name (mtu m) = "mtu"
name (lla a) = "lla"
name (captive_portal c) = "captive-portal"
name (pref64 p) = "pref64"

-- The texts of the types of other packages: their String methods, and the verbs %d and %q.
pub record Texts : Type 0 where
  pub addr : Addr → String
  pub prefix : Prefix → String
  pub duration : ℤ → String
  pub preference : Preference → String
  pub hardware_addr : List ℕ → String
  pub number : ℤ → String
  pub quoted : String → String
  -- ndp.Infinity.
  pub infinity : ℤ

-- Texts one after the other.
unfoldable pub joined : List String → String
joined [] = ""
joined (s ∷ ss) = concat s (joined ss)

-- strings.Join(ss, ", ").
unfoldable pub join : List String → String
join [] = ""
join (s ∷ []) = s
join (s ∷ t ∷ ss) = concat s (concat ", " (join (t ∷ ss)))

module _ (texts : Texts) where
  open texts use {addr, duration}

  unfoldable pub dur_string : ℤ → String
  dur_string d = if d == texts.infinity then "infinite" else duration d

  -- The prefix of the configuration, with those that it stands for at the moment, unless fetching them
  -- returns an error.
  unfoldable pub expanded :
      Bool → Prefix → Result PluginError (List Prefix) → Result PluginError String
  expanded auto pfx current =
      if auto
      then elim current [
        | ok ps ↦ ok (joined (texts.prefix pfx ∷ " [" ∷ join (map texts.prefix ps) ∷ "]" ∷ []))
        | err e ↦ ok (texts.prefix pfx)
        | panic ↦ panic
      ]
      else ok (texts.prefix pfx)

  unfoldable pub flags : PrefixPlugin → List String
  flags p =
      (if p.deprecated then "DEPRECATED" ∷ [] else [])
      ++ ((if p.on_link then "on-link" ∷ [] else [])
          ++ (if p.autonomous then "autonomous" ∷ [] else []))

  unfoldable pub prefix_string : World → PrefixPlugin → Result PluginError String
  prefix_string w p = do
    pfx ← expanded p.auto p.prefix (Prefixes.current p w)
    ok (
        joined (
          pfx
          ∷ " ["
          ∷ join (flags p)
          ∷ "], preferred: "
          ∷ dur_string p.preferred_lifetime
          ∷ ", valid: "
          ∷ dur_string p.valid_lifetime
          ∷ []))

  unfoldable pub route_string : World → RoutePlugin → Result PluginError String
  route_string w r = do
    pfx ← expanded r.auto r.prefix (Routes.current r w)
    ok (
        joined (
          pfx
          ∷ (if r.deprecated then " [DEPRECATED]" else "")
          ∷ ", preference: "
          ∷ texts.preference r.preference
          ∷ ", lifetime: "
          ∷ dur_string r.lifetime
          ∷ []))

  -- The wildcard, with the server that it stands for at the moment.
  unfoldable pub wildcard_server : Bool → Result PluginError Addr → Result PluginError (List String)
  wildcard_server auto current =
      if auto
      then elim current [
        | ok s ↦ ok (joined (":: [" ∷ addr s ∷ "]" ∷ []) ∷ [])
        | err e ↦ ok ("::" ∷ [])
        | panic ↦ panic
      ]
      else ok []

  -- The loop over the servers, which skips the unspecified ones.
  unfoldable pub server_strings : List Addr → List String
  server_strings [] = []
  server_strings (s ∷ ss) =
      let rest = server_strings ss in if Addr.is_unspecified s then rest else addr s ∷ rest

  unfoldable pub rdnss_string : World → RdnssPlugin → Result PluginError String
  rdnss_string w r = do
    first ← wildcard_server r.auto (Rdnss.current r w)
    ok (
        joined (
          "servers: ["
          ∷ join (first ++ server_strings r.servers)
          ∷ "], lifetime: "
          ∷ dur_string r.lifetime
          ∷ []))

  unfoldable pub dnssl_string : DnsslPlugin → String
  dnssl_string d =
      joined
        ("domain names: [" ∷ join d.domain_names ∷ "], lifetime: " ∷ dur_string d.lifetime ∷ [])

  unfoldable pub lla_string : Option (List ℕ) → String
  lla_string a =
      concat "source link-layer address: "
        (elim a [ some bytes ↦ texts.hardware_addr bytes | none ↦ "n/a" ])

  -- The method call on the interface Plugin.
  unfoldable pub string : World → Plugin → Result PluginError String
  string w (prefix p) = prefix_string w p
  string w (route r) = route_string w r
  string w (rdnss r) = rdnss_string w r
  string w (dnssl d) = ok (dnssl_string d)
  string w (mtu m) = ok (concat "MTU: " (texts.number m))
  string w (lla a) = ok (lla_string a)
  string w (captive_portal c) = ok (concat "URI: " (texts.quoted c.uri))
  string w (pref64 p) =
      ok (joined (texts.prefix p.prefix ∷ ", lifetime: " ∷ duration p.lifetime ∷ []))
