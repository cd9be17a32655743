-- ===== src/Netstate/Channels.antt =====
-- Predicates on all channels of a watcher's map, and what keeps them.
use corerad.Common.{
  String, List, [], ◌∷◌, map, All, All-append, ◌==◌, nat_eq, string_eq, Bool-cases, inl, inr, subst,
}
use corerad.Netstate.{Channel, ChangeMap, Interest, add_channel, register}
use corerad.Netstate.Names.{Change}
use corerad.Netstate.Delivery.{on_interest, on_channels}

module _ (P : Change → Channel → Type 0) where
  abbrev pub OnInterest : Interest → Type 0
  OnInterest [] = Unit
  OnInterest ((k, v) ∷ rest) = All (P k) v × OnInterest rest

-- Every channel of the map, with its interface and its bitmask.
abbrev pub AllChannels : (String → Change → Channel → Type 0) → ChangeMap → Type 0
AllChannels P [] = Unit
AllChannels P ((i, interest) ∷ rest) = OnInterest (P i) interest × AllChannels P rest

All-mapped :
    (P Q : Channel → Type 0) (f : Channel → Channel) (h : (ch : Channel) → P ch → Q (f ch))
    (v : List Channel)
    → All P v
    → All Q (map f v)
All-mapped P Q f h [] a = tt
All-mapped P Q f h (ch ∷ v) a = (h ch a.0, All-mapped P Q f h v a.1)

OnInterest-mapped :
    (P Q : Change → Channel → Type 0) (f : Change → Channel → Channel)
    (h : (k : Change) (ch : Channel) → P k ch → Q k (f k ch)) (interest : Interest)
    → OnInterest P interest
    → OnInterest Q (on_interest f interest)
OnInterest-mapped P Q f h [] a = tt
OnInterest-mapped P Q f h ((k, v) ∷ rest) a =
    (All-mapped (P k) (Q k) (f k) (h k) v a.0, OnInterest-mapped P Q f h rest a.1)

pub AllChannels-mapped :
    (P Q : String → Change → Channel → Type 0) (f : String → Change → Channel → Channel)
    (h : (i : String) (k : Change) (ch : Channel) → P i k ch → Q i k (f i k ch)) (m : ChangeMap)
    → AllChannels P m
    → AllChannels Q (on_channels f m)
AllChannels-mapped P Q f h [] a = tt
AllChannels-mapped P Q f h ((i, interest) ∷ rest) a =
    (OnInterest-mapped (P i) (Q i) (f i) (h i) interest a.0, AllChannels-mapped P Q f h rest a.1)

module _ (P : String → Change → Channel → Type 0) (ch : Channel) (k : Change)
    (p : (i : String) → P i k ch) where
  add_channel-OnInterest :
      (i : String) (interest : Interest)
      → OnInterest (P i) interest
      → OnInterest (P i) (add_channel k ch interest)
  unfolding add_channel
  add_channel-OnInterest i [] a = ((p i, tt), tt)
  add_channel-OnInterest i ((k', v) ∷ rest) a = elim (Bool-cases (k == k')) [
    | inl e ↦
        let same = subst (λ x. P i x ch) ((nat_eq.beq_iff k k').0 e) (p i) in
        rw (e, add_channel) (All-append (P i k') v (ch ∷ []) a.0 (same, tt), a.1)
    | inr e ↦ rw (e, add_channel) (a.0, add_channel-OnInterest i rest a.1)
  ]

  pub register-AllChannels :
      (i : String) (m : ChangeMap) → AllChannels P m → AllChannels P (register i k ch m)
  unfolding register add_channel
  register-AllChannels i [] a = (((p i, tt), tt), tt)
  register-AllChannels i ((j, interest) ∷ rest) a = elim (Bool-cases (i == j)) [
    | inl e ↦ rw (e, register) (add_channel-OnInterest j interest a.0, a.1)
    | inr e ↦ rw (e, register) (a.0, register-AllChannels i rest a.1)
  ]
