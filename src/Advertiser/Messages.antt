-- ===== src/Advertiser/Messages.antt =====
-- What is received and sent (handle, send, buildRA and shutdown in internal/corerad/advertise.go).
use corerad.Common.{
  ℕ, ◌≡◌, ◌↔◌, refl, Bool, true, false, not, ◌&&◌, String, List, [], ◌∷◌, ◌++◌, map, Result, ok,
  ◌>>=◌, wrap_err, if◌then◌else◌, Bool-cases, inl, inr, ◌⊎◌, >>=-eq-ok, wrap_err-eq-ok,
}
use corerad.Common.Int.{pos}
use corerad.Netip.Addr
use corerad.Netip.Addr.{Addr, none_addr, all_nodes}
use corerad.Ndp.{NdpOption, RouterAdvertisement}
use corerad.System.{Error, World}
use corerad.Plugin.Apply.{push_options}
use corerad.Config.Types.{Interface, ConfigError}
use corerad.Config.Advertise
use corerad.Config.Advertise.{base_ra}
use corerad.Config.Advertise.Built.{contributions, router_advertisement-contributions}
use corerad.Verify.Problems.{Problem}
use corerad.Verify.Checks.{verify_ras}
use corerad.Verify.Consistency.{IsConsistent, verify_ras-IsConsistent}

pub data Message : Type 0 where
  router_solicitation : List NdpOption → Message
  router_advertisement : RouterAdvertisement → Message
  other : Message

-- What a handler does beside its result, in order: metrics and calls of the hook. Logs are left out.
pub data Event : Type 0 where
  received : Event
  inconsistent : Problem → Event
  -- OnInconsistentRA(ours, theirs).
  hook : RouterAdvertisement → RouterAdvertisement → Event
  received_invalid : Event

pub data AdvertiserError : Type 0 where
  forwarding_failed : Error → AdvertiserError
  generate_failed : ConfigError → AdvertiserError
  write_failed : Addr → Error → AdvertiserError

pub record Advertiser : Type 0 where
  pub cfg : Interface
  -- Whether OnInconsistentRA is set.
  pub has_hook : Bool
  pub terminate : Bool

-- The system state and the connection that the Advertiser uses.
pub record Environment : Type 0 where
  pub world : World
  pub fresh : ℕ
  pub forwarding : String → Result Error Bool
  pub write : RouterAdvertisement → Addr → Result Error (Unit {0})

module _ (env : Environment) where
  unfoldable pub build_ra : Interface → Result AdvertiserError RouterAdvertisement
  build_ra ifi = do
    fwd ← wrap_err forwarding_failed (env.forwarding ifi.name)
    (ra, ms) ← wrap_err generate_failed (Advertise.router_advertisement env.world env.fresh ifi fwd)
    ok ra

  abbrev report : Advertiser → RouterAdvertisement → RouterAdvertisement → List Problem → List Event
  report a want m [] = []
  report a want m (p ∷ ps) =
      map inconsistent (p ∷ ps) ++ (if a.has_hook then hook want m ∷ [] else [])

  -- The address to reply to, or the zero Addr for none.
  unfoldable pub handle : Advertiser → Message → Addr → Result AdvertiserError (Addr × List Event)
  handle a (router_solicitation os) host =
      ok (if Addr.is_unspecified host then all_nodes else host, received ∷ [])
  handle a (router_advertisement m) host = do
    want ← build_ra a.cfg
    ok (none_addr, received ∷ report a want m (verify_ras want m))
  handle a other host = ok (none_addr, received ∷ received_invalid ∷ [])

  -- The advertisements written, with their destinations; a failed write is an error.
  unfoldable pub send :
      Addr → Interface → Result AdvertiserError (List (RouterAdvertisement × Addr))
  send dst cfg = if cfg.unicast_only && Addr.is_multicast dst then ok [] else do
    ra ← build_ra cfg
    _ ← wrap_err (write_failed dst) (env.write ra dst)
    ok ((ra, dst) ∷ [])

  -- An error of the last send is only logged.
  unfoldable pub shutdown : Advertiser → Result AdvertiserError (List (RouterAdvertisement × Addr))
  shutdown a =
      if not a.terminate then ok [] else send all_nodes (record a.cfg { default_lifetime = pos 0 })

  report-empty :
      (a : Advertiser) (want m : RouterAdvertisement) (ps : List Problem)
      → (report a want m ps ≡ []) ↔ (ps ≡ [])
  report-empty a want m [] = (λ h. refl, λ h. refl)
  report-empty a want m (p ∷ ps) = (λ h. cc, λ h. cc)

  report_lem :
      (a : Advertiser) (want m : RouterAdvertisement)
      → (report a want m (verify_ras want m) ≡ []) ↔ IsConsistent want m
  report_lem a want m =
      let e = report-empty a want m (verify_ras want m) in
      let v = verify_ras-IsConsistent want m in (λ h. v.0 (e.0 h), λ h. e.1 (v.1 h))

  report-found :
      (a : Advertiser) (want m : RouterAdvertisement) (ps : List Problem)
      → (ps ≡ [] → ⊥)
      → report a want m ps ≡ map inconsistent ps ++ (if a.has_hook then hook want m ∷ [] else [])
  report-found a want m [] h = absurd (h refl)
  report-found a want m (p ∷ ps) h = refl

  build_final :
      (cfg : Interface) (fwd : Bool) (os : List NdpOption)
      → env.forwarding cfg.name ≡ ok fwd
      → contributions env.world env.fresh cfg.plugins ≡ ok os
      → build_ra (record cfg { default_lifetime = pos 0 })
        ≡ ok (push_options (base_ra (record cfg { default_lifetime = pos 0 })) os)
  unfolding build_ra
  build_final cfg fwd os f c = rw (
    f,
    router_advertisement-contributions env.world env.fresh (record cfg { default_lifetime = pos 0 })
        fwd,
    c,
  )

  -- Where the interface's own advertisement can be built, an advertisement from another router is
  -- not replied to. It is counted as received, and nothing else happens, just where it is
  -- consistent with the own one; else each of its problems is counted, in order, and then the hook
  -- is called, once, if it is set.
  pub handle-IsConsistent :
      (a : Advertiser) (want m : RouterAdvertisement) (host : Addr)
      → build_ra a.cfg ≡ ok want
      → (events : List Event) × (handle a (router_advertisement m) host
          ≡ ok (none_addr, received ∷ events))
        × ((events ≡ []) ↔ IsConsistent want m)
        × ((verify_ras want m ≡ [] → ⊥)
            → events
              ≡ map inconsistent (verify_ras want m)
                ++ (if a.has_hook then hook want m ∷ [] else []))
  unfolding handle
  handle-IsConsistent a want m host h = (
    report a want m (verify_ras want m),
    rw h,
    report_lem a want m,
    report-found a want m (verify_ras want m),
  )

  -- On shutdown with the intent to stop, on an interface that is not in unicast-only mode, whose
  -- forwarding state and plugins can be read, and where writes to all nodes succeed, one
  -- advertisement is written, to all nodes: it has a zero router lifetime and the options of the
  -- configuration.
  pub shutdown_lem :
      (a : Advertiser) (fwd : Bool) (os : List NdpOption)
      → a.terminate ≡ true
      → a.cfg.unicast_only ≡ false
      → env.forwarding a.cfg.name ≡ ok fwd
      → contributions env.world env.fresh a.cfg.plugins ≡ ok os
      → ((ra : RouterAdvertisement) → env.write ra all_nodes ≡ ok tt)
      → (ra : RouterAdvertisement) × (shutdown a ≡ ok ((ra, all_nodes) ∷ []))
        × (ra.router_lifetime ≡ pos 0)
        × (ra.options ≡ os)
  unfolding shutdown send base_ra
  shutdown_lem a fwd os t u f c w = (
    push_options (base_ra (record a.cfg { default_lifetime = pos 0 })) os,
    rw (t, build_final a.cfg fwd os f c, u, w _),
    refl,
    refl,
  )

  -- A send that returns no error has written nothing, if the interface is in unicast-only mode and
  -- the destination is multicast, and else one advertisement, the one that is built, to the
  -- destination.
  pub send_lem :
      (dst : Addr) (cfg : Interface) {ws : List (RouterAdvertisement × Addr)}
      → send dst cfg ≡ ok ws
      → (((cfg.unicast_only && Addr.is_multicast dst) ≡ true) × (ws ≡ []))
        ⊎ (((cfg.unicast_only && Addr.is_multicast dst) ≡ false)
            × (ra : RouterAdvertisement) × (build_ra cfg ≡ ok ra)
            × (env.write ra dst ≡ ok tt)
            × (ws ≡ (ra, dst) ∷ []))
  unfolding send
  send_lem dst cfg h = elim (Bool-cases (cfg.unicast_only && Addr.is_multicast dst)) [
    | inl e ↦ inl (e, cc (rw e at h))
    | inr e ↦
        let (ra, b, h1) = >>=-eq-ok (build_ra cfg) _ (rw e at h) in
        let (u, wr, h2) = >>=-eq-ok (wrap_err (write_failed dst) (env.write ra dst)) _ h1 in
        inr (e, ra, b, wrap_err-eq-ok _ _ wr, cc)
  ]
