-- ===== src/Api/Interfaces.antt =====
-- The interfaces route (Handler.interfaces in internal/crhttp/handler.go), up to the encoding.
use corerad.Common.{
  ℕ, ◌≡◌, Bool, true, false, not, String, List, some, none, Result, ok, ◌>>=◌, map_result,
  map_result-Zipped, wrap_err, wrap_err-eq-ok, >>=-eq-ok, if◌then◌else◌, Zipped, Zipped-map, arith,
  Result-cases, inl, inr,
}
use corerad.Ndp.{RouterAdvertisement}
use corerad.System.{Error, World}
use corerad.Config.Types.{Interface, Misconfiguration}
use corerad.Config.Advertise.{router_advertisement}
use corerad.Api.Types.{
  Advertisement, InterfaceBody, Printer, ApiError, forwarding_failed, generate_failed,
}
use corerad.Api.Pack.{pack_ra}

module _ (print : Printer) (w : World) (fresh : ℕ) (forwarding : String → Result Error Bool) where
  -- The advertisement of one interface.
  unfoldable pub shown : Interface → Result ApiError Advertisement
  shown ifi = do
    fwd ← wrap_err (forwarding_failed ifi.name) (forwarding ifi.name)
    (ra, ms) ← wrap_err generate_failed (router_advertisement w fresh ifi fwd)
    pack_ra print ra

  -- The body of the loop.
  unfoldable pub interface_body : Interface → Result ApiError InterfaceBody
  interface_body ifi =
      if not ifi.advertise
      then ok (record { name = ifi.name; advertise = ifi.advertise; advertisement = none })
      else do
        ra ← shown ifi
        ok (record { name = ifi.name; advertise = ifi.advertise; advertisement = some ra })

  unfoldable pub interfaces : List Interface → Result ApiError (List InterfaceBody)
  interfaces ifaces = map_result interface_body ifaces

  -- What an entry says of its interface.
  pub IsEntry : Interface → InterfaceBody → Type 0
  IsEntry ifi b =
      (b.name ≡ ifi.name)
      × (b.advertise ≡ ifi.advertise)
      × (ifi.advertise ≡ false → b.advertisement ≡ none)
      × (ifi.advertise ≡ true
          → (fwd : Bool) × (ra : RouterAdvertisement) × (ms : List Misconfiguration)
            × (a : Advertisement) × (forwarding ifi.name ≡ ok fwd)
            × (router_advertisement w fresh ifi fwd ≡ ok (ra, ms))
            × (pack_ra print ra ≡ ok a)
            × (b.advertisement ≡ some a))

  shown_lem :
      (ifi : Interface) {a : Advertisement}
      → shown ifi ≡ ok a
      → (fwd : Bool) × (ra : RouterAdvertisement) × (ms : List Misconfiguration) × (forwarding
            ifi.name
          ≡ ok fwd)
        × (router_advertisement w fresh ifi fwd ≡ ok (ra, ms))
        × (pack_ra print ra ≡ ok a)
  unfolding shown
  shown_lem ifi h =
      let (fwd, e, h1) = >>=-eq-ok _ _ h in
      let (r, e', h2) = >>=-eq-ok _ _ h1 in
      (fwd, r.0, r.1, wrap_err-eq-ok _ _ e, wrap_err-eq-ok _ _ e', h2)

  interface_body_lem :
      (ifi : Interface) {b : InterfaceBody} → interface_body ifi ≡ ok b → IsEntry ifi b
  unfolding interface_body IsEntry
  interface_body_lem ifi {b} h = elim (Result-cases (shown ifi)) [
    | inl (a, s) ↦
        let (fwd, ra, ms, p, q, r) = shown_lem ifi s in
        (
          ground arith,
          ground arith,
          λ off. ground arith,
          λ on. (fwd, ra, ms, a, p, q, r, ground arith),
        )
    | inr bad ↦ ground arith
  ]

  -- A response lists the configured interfaces in order, each by its name and whether it advertises,
  -- with no advertisement where it does not, and else with the one that it would send now.
  pub interfaces-IsEntry :
      (ifaces : List Interface) {body : List InterfaceBody}
      → interfaces ifaces ≡ ok body
      → Zipped IsEntry ifaces body
  unfolding interfaces
  interfaces-IsEntry ifaces h =
      Zipped-map (λ i b. interface_body_lem i) _ _ (map_result-Zipped _ _ h)
