-- ===== src/Monitor/Gauges.antt =====
-- What the gauges of the monitor show after a message.
use corerad.Common.{
  ◌≡◌, refl, Bool, List, [], ◌∷◌, Option, some, ◌==◌, if◌then◌else◌, Bool-cases, inl, inr,
}
use corerad.Common.Int.{ℤ, pos, ◌+ℤ◌, int_eq}
use corerad.Netip.Prefix.{Prefix, prefix_eq}
use corerad.Ndp.{NdpOption, PrefixInformation, RouterAdvertisement}
use corerad.Verify.Problems.{pick, as_prefix}
use corerad.Advertiser.Messages.{router_solicitation, router_advertisement, other}
use corerad.Monitor.{
  Gauge, flag_managed, flag_other, prefix_autonomous, prefix_on_link, default_route_expiration,
  prefix_valid_expiration, prefix_preferred_expiration, unix, cidr, prefix_samples, handle, reading,
}

-- The value for the last of the options that announce a prefix, or else the one before.
abbrev pub last_for :
    Prefix → (PrefixInformation → ℤ) → List PrefixInformation → Option ℤ → Option ℤ
last_for l value [] before = before
last_for l value (p ∷ ps) before =
    last_for l value ps (if l == cidr p then some (value p) else before)

-- A flag as the number 1 or 0.
abbrev pub shown_flag : Bool → ℤ
shown_flag b = if b then pos 1 else pos 0

reading_valid :
    (now : ℤ) (l : Prefix) (ps : List PrefixInformation) (before : Option ℤ)
    → reading (prefix_valid_expiration l) (prefix_samples now ps) before
      ≡ last_for l (λ p. unix (now +ℤ p.valid_lifetime)) ps before
unfolding reading prefix_samples
reading_valid now l [] before = refl
reading_valid now l (p ∷ ps) before = reading_valid now l ps _

reading_preferred :
    (now : ℤ) (l : Prefix) (ps : List PrefixInformation) (before : Option ℤ)
    → reading (prefix_preferred_expiration l) (prefix_samples now ps) before
      ≡ last_for l (λ p. unix (now +ℤ p.preferred_lifetime)) ps before
unfolding reading prefix_samples
reading_preferred now l [] before = refl
reading_preferred now l (p ∷ ps) before = reading_preferred now l ps _

reading_autonomous :
    (now : ℤ) (l : Prefix) (ps : List PrefixInformation) (before : Option ℤ)
    → reading (prefix_autonomous l) (prefix_samples now ps) before
      ≡ last_for l (λ p. shown_flag p.autonomous_address_configuration) ps before
unfolding reading prefix_samples
reading_autonomous now l [] before = refl
reading_autonomous now l (p ∷ ps) before = reading_autonomous now l ps _

reading_on_link :
    (now : ℤ) (l : Prefix) (ps : List PrefixInformation) (before : Option ℤ)
    → reading (prefix_on_link l) (prefix_samples now ps) before
      ≡ last_for l (λ p. shown_flag p.on_link) ps before
unfolding reading prefix_samples
reading_on_link now l [] before = refl
reading_on_link now l (p ∷ ps) before = reading_on_link now l ps _

-- The gauges that are not a prefix's.
reading_others :
    (now : ℤ) (ps : List PrefixInformation) (before : Option ℤ)
    → (reading default_route_expiration (prefix_samples now ps) before ≡ before)
      × (reading flag_managed (prefix_samples now ps) before ≡ before)
      × (reading flag_other (prefix_samples now ps) before ≡ before)
unfolding reading prefix_samples
reading_others now [] before = (refl, refl, refl)
reading_others now (p ∷ ps) before = reading_others now ps before

-- What all seven gauges show after a message, whatever they showed before it. A router advertisement
-- sets the two flags of the router to its own, and the time at which a default route expires to
-- its router lifetime from now, unless that is zero, which leaves the gauge as it was. It sets the
-- autonomous and the on-link flag of a prefix, and the times at which it expires and is no longer
-- preferred, by the last of its options that announce the prefix, and leaves those of other prefixes
-- as they were. Router solicitations and messages of other types change no gauge.
pub reading-handle :
    (now : ℤ) (ra : RouterAdvertisement) (l : Prefix) (g : Gauge) (os : List NdpOption)
    (before : Option ℤ)
    → (reading flag_managed (handle now (router_advertisement ra)) before
        ≡ some (shown_flag ra.managed_configuration))
      × (reading flag_other (handle now (router_advertisement ra)) before
          ≡ some (shown_flag ra.other_configuration))
      × (reading default_route_expiration (handle now (router_advertisement ra)) before ≡ (
          if ra.router_lifetime == pos 0 then before else some (unix (now +ℤ ra.router_lifetime))))
      × (reading (prefix_autonomous l) (handle now (router_advertisement ra)) before
          ≡ last_for l
              (λ p. shown_flag p.autonomous_address_configuration)
              (pick as_prefix ra.options)
              before)
      × (reading (prefix_on_link l) (handle now (router_advertisement ra)) before
          ≡ last_for l (λ p. shown_flag p.on_link) (pick as_prefix ra.options) before)
      × (reading (prefix_valid_expiration l) (handle now (router_advertisement ra)) before
          ≡ last_for l (λ p. unix (now +ℤ p.valid_lifetime)) (pick as_prefix ra.options) before)
      × (reading (prefix_preferred_expiration l) (handle now (router_advertisement ra)) before
          ≡ last_for l (λ p. unix (now +ℤ p.preferred_lifetime)) (pick as_prefix ra.options) before)
      × (reading g (handle now (router_solicitation os)) before ≡ before)
      × (reading g (handle now other) before ≡ before)
unfolding reading handle
reading-handle now ra l g os before =
    let ps = pick as_prefix ra.options in
    elim (Bool-cases (ra.router_lifetime == pos 0)) [
      | inl e ↦ (
        rw (e, handle) (reading_others now ps _).1,
        rw (e, handle) (reading_others now ps _).2,
        rw (e, handle) (reading_others now ps before).0,
        rw (e, handle) (reading_autonomous now l ps before),
        rw (e, handle) (reading_on_link now l ps before),
        rw (e, handle) (reading_valid now l ps before),
        rw (e, handle) (reading_preferred now l ps before),
        refl,
        refl,
      )
      | inr e ↦ (
        rw (e, handle) (reading_others now ps _).1,
        rw (e, handle) (reading_others now ps _).2,
        rw (e, handle) (reading_others now ps _).0,
        rw (e, handle) (reading_autonomous now l ps before),
        rw (e, handle) (reading_on_link now l ps before),
        rw (e, handle) (reading_valid now l ps before),
        rw (e, handle) (reading_preferred now l ps before),
        refl,
        refl,
      )
    ]
