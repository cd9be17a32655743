-- ===== src/Api/Pack/Panics.antt =====
-- Which advertisements the API can show (packOptions).
use corerad.Common.{
  ◌≡◌, ◌↔◌, ◌⊎◌, inl, inr, refl, Bool, true, false, List, [], ◌∷◌, ok, err, panic, any, arith, Memᴰ,
  any-of_mem, any-witness,
}
use corerad.Ndp.{NdpOption, Preference, RouterAdvertisement}
use corerad.Ndp
use corerad.Api.Types.{Options, Printer, ApiError}
use corerad.Api.Pack.{preference, pack_option, pack_from, pack_options, no_options}

pub is_reserved : Preference → Bool
is_reserved (Preference.reserved n) = true
is_reserved _ = false

-- PREF64 options, options of other types, and routes of no known preference.
pub is_unhandled : NdpOption → Bool
is_unhandled (Ndp.pref64 o) = true
is_unhandled (Ndp.unknown n) = true
is_unhandled (Ndp.route_information o) = is_reserved o.preference
is_unhandled _ = false

module _ (print : Printer) where
  preference_lem : (p : Preference) → (preference p ≡ panic) ↔ (is_reserved p ≡ true)
  unfolding preference is_reserved
  preference_lem p = ground arith

  preference-returns : (p : Preference) (e : ApiError) → preference p ≡ err e → ⊥
  unfolding preference
  preference-returns p e h = ground arith

  pack_option_lem :
      (out : Options) (o : NdpOption)
      → ((is_unhandled o ≡ true) × (pack_option print out o ≡ panic))
        ⊎ ((is_unhandled o ≡ false) × (out' : Options) × (pack_option print out o ≡ ok out'))
  unfolding pack_option is_unhandled preference is_reserved
  pack_option_lem out o = ground arith

  pack_from_lem :
      (out : Options) (os : List NdpOption)
      → ((any is_unhandled os ≡ true) × (pack_from print out os ≡ panic))
        ⊎ ((any is_unhandled os ≡ false) × (out' : Options) × (pack_from print out os ≡ ok out'))
  unfolding pack_from any
  pack_from_lem out [] = inr (refl, out, refl)
  pack_from_lem out (o ∷ os) = elim (pack_option_lem out o) [
    | inl (u, e) ↦ inl (rw u, rw e)
    | inr (u, out', e) ↦ rw (u, e) (pack_from_lem out' os)
  ]

  -- Packing the options of an advertisement panics just where one of them is a PREF64 option, an
  -- option of a type unknown to the program, or a route of a reserved preference; it returns the
  -- packed options in every other case, and never an error.
  pub pack_options_panics :
      (os : List NdpOption)
      → ((pack_options print os ≡ panic) ↔ ((o : NdpOption) × Memᴰ o os × (is_unhandled o ≡ true)))
        × ((pack_options print os ≡ panic) ⊎ ((out : Options) × (pack_options print os ≡ ok out)))
  unfolding pack_options
  pack_options_panics os = elim (pack_from_lem (no_options print) os) [
    | inl (u, e) ↦ ((λ h. any-witness is_unhandled os u, λ h. e), inl e)
    | inr (u, out, e) ↦ (
      (λ h. cc (rw e at h), λ h. cc (rw (any-of_mem is_unhandled os h.0 h.1 h.2) at u)),
      inr (out, e),
    )
  ]
