-- ===== src/Plugin/Text/Prepared.antt =====
-- When the text of a plugin can be made.
use corerad.Common.{
  ◌≡◌, ◌≢◌, refl, Bool, true, false, String, List, Result, ok, err, panic, ◌>>=◌, wrap_err, arith,
}
use corerad.System.{World}
use corerad.Netip.Addr.{Addr}
use corerad.Netip.Prefix.{Prefix}
use corerad.Plugin.Types.{
  Plugin, PluginError, Interface, fetch_addresses, fetch_routes, prepare, prepare_prefix,
  prepare_route, prepare_rdnss, prefix, route, rdnss, dnssl, mtu, lla, captive_portal, pref64,
}
use corerad.Plugin.Prefixes
use corerad.Plugin.Prefixes.{call_addrs}
use corerad.Plugin.Routes
use corerad.Plugin.Rdnss
use corerad.Plugin.Text.{
  Texts, expanded, wildcard_server, prefix_string, route_string, rdnss_string, string,
}

wrap_err-panics : {E F A : Type 0} (f : E → F) (m : Result E A) → m ≢ panic → wrap_err f m ≢ panic
wrap_err-panics f (ok a) n h = cc
wrap_err-panics f (err e) n h = cc
wrap_err-panics f panic n h = n refl

bind_panics :
    {E A B : Type 0} (m : Result E A) (next : A → Result E B)
    → m ≢ panic
    → ((a : A) → next a ≢ panic)
    → (m >>= next) ≢ panic
bind_panics (ok a) next n k h = k a h
bind_panics (err e) next n k h = cc
bind_panics panic next n k h = n refl

finished :
    {E A B : Type 0} (m : Result E A) (f : A → B)
    → (a : A) × (m ≡ ok a)
    → (b : B) × ((m >>= λ a. ok (f a)) ≡ ok b)
finished m f (a, q) = (f a, rw q refl)

module _ (texts : Texts) where
  expanded_ok :
      (auto : Bool) (pfx : Prefix) (current : Result PluginError (List Prefix))
      → current ≢ panic
      → (s : String) × (expanded texts auto pfx current ≡ ok s)
  unfolding expanded
  expanded_ok false pfx current n = (_, refl)
  expanded_ok true pfx (ok ps) n = (_, refl)
  expanded_ok true pfx (err e) n = (_, refl)
  expanded_ok true pfx panic n = absurd (n refl)

  wildcard_server_ok :
      (auto : Bool) (current : Result PluginError Addr)
      → current ≢ panic
      → (ss : List String) × (wildcard_server texts auto current ≡ ok ss)
  unfolding wildcard_server
  wildcard_server_ok false current n = (_, refl)
  wildcard_server_ok true (ok ip) n = (_, refl)
  wildcard_server_ok true (err e) n = (_, refl)
  wildcard_server_ok true panic n = absurd (n refl)

module _ (texts : Texts) (w : World) where
  -- After Prepare, and where the two methods of the Addresser do not panic, String of any plugin
  -- returns a text, whatever they return: an error of theirs is not the plugin's.
  pub string-prepare :
      (ifi : Interface) (p : Plugin)
      → w.addresses_by_index ifi.index ≢ panic
      → w.loopback_routes ≢ panic
      → (s : String) × (string texts w (prepare ifi p) ≡ ok s)
  unfolding string prepare prefix_string route_string rdnss_string Prefixes.current Routes.current
      Rdnss.current call_addrs Routes.expand
  string-prepare ifi (prefix p) a r = finished _ _ (
      expanded_ok texts p.auto p.prefix (Prefixes.current (prepare_prefix ifi p) w)
        (bind_panics _ _ (wrap_err-panics fetch_addresses _ a) (λ xs h. cc)))
  string-prepare ifi (route p) a r = finished _ _ (
      expanded_ok texts p.auto p.prefix (Routes.current (prepare_route ifi p) w) (
        bind_panics _ _ (wrap_err-panics fetch_routes _ r)
          (λ xs. bind_panics _ _ (wrap_err-panics fetch_addresses _ a) (λ ys h. cc))))
  string-prepare ifi (rdnss p) a r = finished _ _ (
      wildcard_server_ok texts p.auto (Rdnss.current (prepare_rdnss ifi p) w)
        (bind_panics _ _ (wrap_err-panics fetch_addresses _ a) (λ xs. ground arith)))
  string-prepare ifi (dnssl p) a r = (_, refl)
  string-prepare ifi (mtu p) a r = (_, refl)
  string-prepare ifi (lla p) a r = (_, refl)
  string-prepare ifi (captive_portal p) a r = (_, refl)
  string-prepare ifi (pref64 p) a r = (_, refl)
