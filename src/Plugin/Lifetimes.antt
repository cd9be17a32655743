-- ===== src/Plugin/Lifetimes.antt =====
-- The lifetimes of deprecated prefixes and routes: Prefix.lifetimes and Route.lifetime.
use corerad.Common.{◌≡◌, ◌≢◌, ◌↔◌, true, ◌||◌, not, arith, if◌then◌else◌, Result, ok, panic}
use corerad.Common.Int.{ℤ, pos, ◌+ℤ◌, ◌-ℤ◌, ◌≤ℤ◌, ltb_ℤ, eqb_ℤ, +ℤ_parts, -ℤ_parts}
use corerad.Plugin.Types.{PrefixPlugin, RoutePlugin, PluginError}

-- What is left at `now` of a lifetime that began at `epoch`: zero from `epoch + lifetime` on.
unfoldable pub remaining : ℤ → ℤ → ℤ → ℤ
remaining epoch lifetime now =
    let end = epoch +ℤ lifetime in if eqb_ℤ now end || ltb_ℤ end now then pos 0 else end -ℤ now

-- A nil TimeNow panics when it is called.
unfoldable pub lifetimes : PrefixPlugin → ℤ → Result PluginError (ℤ × ℤ)
unfolding remaining
lifetimes p now =
    if not p.deprecated
    then ok (p.valid_lifetime, p.preferred_lifetime)
    else if eqb_ℤ p.epoch (pos 0) || not p.time_now
    then panic
    else ok (remaining p.epoch p.valid_lifetime now, remaining p.epoch p.preferred_lifetime now)

unfoldable pub lifetime : RoutePlugin → ℤ → Result PluginError ℤ
unfolding remaining
lifetime r now =
    if not r.deprecated
    then ok r.lifetime
    else if eqb_ℤ r.epoch (pos 0) || not r.time_now
    then panic
    else ok (remaining r.epoch r.lifetime now)

remaining_nonneg : (e l now : ℤ) → pos 0 ≤ℤ remaining e l now
unfolding remaining
remaining_nonneg e l now = ground (arith, +ℤ_parts e l, -ℤ_parts (e +ℤ l) now)

remaining_zero_iff : (e l now : ℤ) → (remaining e l now ≡ pos 0) ↔ (e +ℤ l ≤ℤ now)
unfolding remaining
remaining_zero_iff e l now = (
  λ h. ground (arith, +ℤ_parts e l, -ℤ_parts (e +ℤ l) now),
  λ h. ground (arith, +ℤ_parts e l, -ℤ_parts (e +ℤ l) now),
)

remaining_mono : (e l m now : ℤ) → l ≤ℤ m → remaining e l now ≤ℤ remaining e m now
unfolding remaining
remaining_mono e l m now h =
    ground (arith, +ℤ_parts e l, +ℤ_parts e m, -ℤ_parts (e +ℤ l) now, -ℤ_parts (e +ℤ m) now)

remaining_antitone : (e l s t : ℤ) → s ≤ℤ t → remaining e l t ≤ℤ remaining e l s
unfolding remaining
remaining_antitone e l s t h =
    ground (arith, +ℤ_parts e l, -ℤ_parts (e +ℤ l) s, -ℤ_parts (e +ℤ l) t)

-- A prepared, deprecated prefix with a non-zero epoch never panics: at any clock it has
-- non-negative lifetimes, the preferred one within the valid one if they are configured so, each
-- zero exactly from the end of its configured lifetime after the epoch on; and at a later clock it
-- advertises no longer ones.
pub lifetimes_deprecated :
    (p : PrefixPlugin) (now later : ℤ)
    → p.deprecated ≡ true
    → p.epoch ≢ pos 0
    → p.time_now ≡ true
    → now ≤ℤ later
    → (valid pref valid' pref' : ℤ) × (lifetimes p now ≡ ok (valid, pref))
      × (lifetimes p later ≡ ok (valid', pref'))
      × (pos 0 ≤ℤ valid)
      × (pos 0 ≤ℤ pref)
      × (p.preferred_lifetime ≤ℤ p.valid_lifetime → pref ≤ℤ valid)
      × ((valid ≡ pos 0) ↔ (p.epoch +ℤ p.valid_lifetime ≤ℤ now))
      × ((pref ≡ pos 0) ↔ (p.epoch +ℤ p.preferred_lifetime ≤ℤ now))
      × (valid' ≤ℤ valid)
      × (pref' ≤ℤ pref)
unfolding lifetimes
lifetimes_deprecated p now later d e t le = (
  left now p.valid_lifetime,
  left now p.preferred_lifetime,
  left later p.valid_lifetime,
  left later p.preferred_lifetime,
  ground arith,
  ground arith,
  remaining_nonneg p.epoch p.valid_lifetime now,
  remaining_nonneg p.epoch p.preferred_lifetime now,
  remaining_mono p.epoch p.preferred_lifetime p.valid_lifetime now,
  remaining_zero_iff p.epoch p.valid_lifetime now,
  remaining_zero_iff p.epoch p.preferred_lifetime now,
  remaining_antitone p.epoch p.valid_lifetime now later le,
  remaining_antitone p.epoch p.preferred_lifetime now later le,
)
  where
    left : ℤ → ℤ → ℤ
    left at l = remaining p.epoch l at
