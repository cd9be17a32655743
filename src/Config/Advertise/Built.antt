-- ===== src/Config/Advertise/Built.antt =====
-- The advertisement that an interface's configuration stands for (Interface.RouterAdvertisement).
use mathlib.Core.List.{append_assoc, append-nil}
use corerad.Common.{
  ℕ, suc, ◌≡◌, refl, ◌∙◌, ap, Bool, ◌&&◌, not, List, [], ◌∷◌, ◌++◌, arith, Result, ok, err, panic,
  ◌>>=◌, wrap_err, if◌then◌else◌, Result-cases, inl, inr, ◌⊎◌, true, false, Bool-cases,
}
use corerad.Common.Int.{ℤ, pos, ltb_ℤ, ◌≤ℤ◌, ◌<ℤ◌}
use corerad.Ndp.{NdpOption, RouterAdvertisement}
use corerad.System.{World}
use corerad.Plugin.Types.{Plugin}
use corerad.Plugin.Apply.{push_options}
use corerad.Plugin.Apply.Contribution.{contribution, apply_lem}
use corerad.Config.Types.{
  Interface, Misconfiguration, interface_not_forwarding, ConfigError, cannot_apply,
}
use corerad.Config.Advertise.{base_ra, apply_all, router_advertisement}

-- The options of all plugins, in order, or the error of the first that has none.
unfoldable pub contributions : World → ℕ → List Plugin → Result ConfigError (List NdpOption)
contributions w fresh [] = ok []
contributions w fresh (p ∷ rest) = do
  os ← wrap_err (cannot_apply p) (contribution w fresh p)
  more ← contributions w (suc fresh) rest
  ok (os ++ more)

later :
    {E : Type 0} (m : Result E (List NdpOption)) (ra : RouterAdvertisement) (os : List NdpOption)
    → (m >>= λ os'. ok (push_options (push_options ra os) os'))
      ≡ (m >>= (λ more. ok (os ++ more)) >>= λ os'. ok (push_options ra os'))
later (ok more) ra os = ap (λ l. ok (record ra { options = l })) (append_assoc ra.options os more)
later (err e) ra os = refl
later panic ra os = refl

apply_all_lem :
    (w : World) (fresh : ℕ) (ps : List Plugin) (ra : RouterAdvertisement)
    → apply_all w fresh ps ra ≡ (contributions w fresh ps >>= λ os. ok (push_options ra os))
unfolding apply_all contributions
apply_all_lem w fresh [] ra = rw append-nil
apply_all_lem w fresh (p ∷ rest) ra = rw apply_lem (elim (Result-cases (contribution w fresh p)) [
  | inl (os, e) ↦ rw e (
      apply_all_lem w (suc fresh) rest (push_options ra os)
      ∙ later (contributions w (suc fresh) rest) ra os)
  | inr bad ↦ ground arith
])

-- The advertisement before its lifetime is looked at has the options of the plugins.
pub router_advertisement-contributions :
    (w : World) (fresh : ℕ) (ifi : Interface) (forwarding : Bool)
    → router_advertisement w fresh ifi forwarding ≡ (
        contributions w fresh ifi.plugins >>= λ os.
        let ra = push_options (base_ra ifi) os in
        ok (
          if ltb_ℤ (pos 0) ifi.default_lifetime && not forwarding
          then (record ra { router_lifetime = pos 0 }, interface_not_forwarding ∷ [])
          else (ra, [])))
unfolding router_advertisement base_ra
router_advertisement-contributions w fresh ifi forwarding =
    rw (apply_all_lem w fresh ifi.plugins (base_ra ifi)) (ground arith)

-- The fields of an advertisement that an interface is configured with, without its lifetime.
pub record IsConfigured (ifi : Interface) (ra : RouterAdvertisement) : Type 0 where
  pub hop_limit : ra.current_hop_limit ≡ ifi.hop_limit
  pub managed : ra.managed_configuration ≡ ifi.managed
  pub other_config : ra.other_configuration ≡ ifi.other_config
  pub no_home_agent : ra.mobile_ipv6_home_agent ≡ false
  pub preference : ra.router_selection_preference ≡ ifi.preference
  pub no_proxy : ra.neighbor_discovery_proxy ≡ false
  pub reachable_time : ra.reachable_time ≡ ifi.reachable_time
  pub retransmit_timer : ra.retransmit_timer ≡ ifi.retransmit_timer

-- The lifetime and what is reported of it: an interface that does not forward advertises no positive
-- lifetime, and the change is the only one that is reported.
abbrev pub IsLifetime : Interface → Bool → RouterAdvertisement → List Misconfiguration → Type 0
IsLifetime ifi forwarding ra ms =
    ((ms ≡ [])
      × (ra.router_lifetime ≡ ifi.default_lifetime)
      × ((forwarding ≡ true) ⊎ (ifi.default_lifetime ≤ℤ pos 0)))
    ⊎ ((ms ≡ interface_not_forwarding ∷ [])
        × (ra.router_lifetime ≡ pos 0)
        × (forwarding ≡ false)
        × (pos 0 <ℤ ifi.default_lifetime))

configured :
    (ifi : Interface) (os : List NdpOption) (lifetime : ℤ)
    → IsConfigured ifi (record (base_ra ifi) { router_lifetime = lifetime; options = os })
unfolding base_ra
configured ifi os lifetime = record {
  hop_limit = refl;
  managed = refl;
  other_config = refl;
  no_home_agent = refl;
  preference = refl;
  no_proxy = refl;
  reachable_time = refl;
  retransmit_timer = refl;
}

-- For any plugins, an advertisement is built just where each of them has its options. It carries the hop
-- limit, the flags, the preference and the two timers of the interface, no other flag, and the options
-- of the plugins one after the other. Its router lifetime is the configured one, unless that is
-- positive and the interface does not forward: then it is zero, which is reported, once. Nothing else
-- is reported. Where a plugin fails or panics, so does the whole, as the first such plugin does.
pub router_advertisement_lem :
    (w : World) (fresh : ℕ) (ifi : Interface) (forwarding : Bool)
    → ((os : List NdpOption) × (ra : RouterAdvertisement) × (ms : List Misconfiguration)
        × (contributions w fresh ifi.plugins ≡ ok os)
        × (router_advertisement w fresh ifi forwarding ≡ ok (ra, ms))
        × IsConfigured ifi ra
        × (ra.options ≡ os)
        × IsLifetime ifi forwarding ra ms)
      ⊎ ((e : ConfigError) × (contributions w fresh ifi.plugins ≡ err e)
          × (router_advertisement w fresh ifi forwarding ≡ err e))
      ⊎ ((contributions w fresh ifi.plugins ≡ panic)
          × (router_advertisement w fresh ifi forwarding ≡ panic))
unfolding base_ra
router_advertisement_lem w fresh ifi forwarding =
    let built = router_advertisement-contributions w fresh ifi forwarding in
    elim (Result-cases (contributions w fresh ifi.plugins)) [
      | inl (os, c) ↦ elim (Bool-cases (ltb_ℤ (pos 0) ifi.default_lifetime && not forwarding)) [
        | inl z ↦ inl (
          os,
          record (base_ra ifi) { router_lifetime = pos 0; options = os },
          interface_not_forwarding ∷ [],
          c,
          rw (c, z) at built,
          configured ifi os (pos 0),
          refl,
          inr (refl, refl, ground arith, ground arith),
        )
        | inr z ↦ inl (
          os,
          record (base_ra ifi) { options = os },
          [],
          c,
          rw (c, z) at built,
          configured ifi os ifi.default_lifetime,
          refl,
          inl (refl, refl, ground arith),
        )
      ]
      | inr (inl (e, c)) ↦ inr (inl (e, c, rw c at built))
      | inr (inr c) ↦ inr (inr (c, rw c at built))
    ]
