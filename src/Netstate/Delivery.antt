-- ===== src/Netstate/Delivery.antt =====
-- What reaches the channels of the subscribers.
use Prim.Native.Nat.{bit_and}
use corerad.Common.{
  ◌≡◌, ◌∙◌, refl, sym, ap, Bool, true, false, not, String, List, [], ◌∷◌, ◌++◌, map, ◌==◌, nat_eq,
  string_eq, if◌then◌else◌, arith, filter, Bool-cases, inl, inr,
}
use corerad.Netstate.Names.{Change}
use corerad.Netstate.{
  Channel, Interest, ChangeMap, ChangeSet, send, notify_change, notify_changes, notify_iface,
  notify,
}

-- The same function applied to every channel, with the interface and the bitmask it belongs to.
abbrev pub on_interest : (Change → Channel → Channel) → Interest → Interest
on_interest f [] = []
on_interest f ((k, v) ∷ rest) = (k, map (f k) v) ∷ on_interest f rest

abbrev pub on_channels : (String → Change → Channel → Channel) → ChangeMap → ChangeMap
on_channels f [] = []
on_channels f ((i, interest) ∷ rest) = (i, on_interest (f i) interest) ∷ on_channels f rest

-- Sends in order.
abbrev pub send_all : List Change → Channel → Channel
send_all [] ch = ch
send_all (c ∷ cs) ch = send_all cs (send c ch)

-- The changes for an interface in a set, in order.
abbrev pub gathered : String → ChangeSet → List Change
gathered i [] = []
gathered i ((iface, cs) ∷ rest) = if i == iface then cs ++ gathered i rest else gathered i rest

-- The subscriber's bitmask has a bit of the change.
abbrev pub is_wanted : Change → Change → Bool
is_wanted k c = not (bit_and k c == 0)

map_id : {A : Type 0} (xs : List A) → map (λ x. x) xs ≡ xs
map_id [] = refl
map_id (x ∷ xs) = ap (λ r. x ∷ r) (map_id xs)

map-map : {A : Type 0} (f g : A → A) (xs : List A) → map g (map f xs) ≡ map (λ x. g (f x)) xs
map-map f g [] = refl
map-map f g (x ∷ xs) = ap (λ r. g (f x) ∷ r) (map-map f g xs)

send_wanted : Change → Change → Channel → Channel
send_wanted k c ch = if is_wanted k c then send c ch else ch

map_if :
    (b : Bool) (f : Channel → Channel) (v : List Channel)
    → (if b then v else map f v) ≡ map (λ x. if not b then f x else x) v
map_if true f v = sym (map_id v)
map_if false f v = refl

notify_change_lem :
    (c : Change) (interest : Interest)
    → notify_change c interest ≡ on_interest (λ k. send_wanted k c) interest
unfolding notify_change send_wanted
notify_change_lem c [] = refl
notify_change_lem c ((k, v) ∷ rest) =
    rw (notify_change_lem c rest, map_if (bit_and k c == 0) (send c) v) refl

on_interest_id : (interest : Interest) → on_interest (λ k ch. ch) interest ≡ interest
on_interest_id [] = refl
on_interest_id ((k, v) ∷ rest) = rw (on_interest_id rest, map_id v) refl

on_interest_twice :
    (f g : Change → Channel → Channel) (interest : Interest)
    → on_interest g (on_interest f interest) ≡ on_interest (λ k ch. g k (f k ch)) interest
on_interest_twice f g [] = refl
on_interest_twice f g ((k, v) ∷ rest) = rw (on_interest_twice f g rest, map-map (f k) (g k) v) refl

map_ext : {A : Type 0} (f g : A → A) (h : (x : A) → f x ≡ g x) (xs : List A) → map f xs ≡ map g xs
map_ext f g h [] = refl
map_ext f g h (x ∷ xs) = rw (map_ext f g h xs, h x) refl

on_interest_ext :
    (f g : Change → Channel → Channel) (h : (k : Change) (ch : Channel) → f k ch ≡ g k ch)
    (interest : Interest)
    → on_interest f interest ≡ on_interest g interest
on_interest_ext f g h [] = refl
on_interest_ext f g h ((k, v) ∷ rest) =
    rw (on_interest_ext f g h rest, map_ext (f k) (g k) (h k) v) refl

send_all_wanted :
    (k c : Change) (cs : List Change) (ch : Channel)
    → send_all (filter (is_wanted k) cs) (send_wanted k c ch)
      ≡ send_all (filter (is_wanted k) (c ∷ cs)) ch
unfolding filter send_wanted
send_all_wanted k c cs ch = ground arith

notify_changes_lem :
    (cs : List Change) (interest : Interest)
    → notify_changes cs interest ≡ on_interest (λ k. send_all (filter (is_wanted k) cs)) interest
unfolding notify_changes filter
notify_changes_lem [] interest = sym (on_interest_id interest)
notify_changes_lem (c ∷ cs) interest =
    notify_changes_lem cs (notify_change c interest)
    ∙ ap (on_interest (λ k. send_all (filter (is_wanted k) cs))) (notify_change_lem c interest)
    ∙ on_interest_twice _ _ interest
    ∙ on_interest_ext _ _ (λ k ch. send_all_wanted k c cs ch) interest

pub on_channels_id : (m : ChangeMap) → on_channels (λ i k ch. ch) m ≡ m
on_channels_id [] = refl
on_channels_id ((i, interest) ∷ rest) = rw (on_channels_id rest, on_interest_id interest) refl

pub on_channels_twice :
    (f g : String → Change → Channel → Channel) (m : ChangeMap)
    → on_channels g (on_channels f m) ≡ on_channels (λ i k ch. g i k (f i k ch)) m
on_channels_twice f g [] = refl
on_channels_twice f g ((i, interest) ∷ rest) =
    rw (on_channels_twice f g rest, on_interest_twice (f i) (g i) interest) refl

pub on_channels_ext :
    (f g : String → Change → Channel → Channel)
    (h : (i : String) (k : Change) (ch : Channel) → f i k ch ≡ g i k ch) (m : ChangeMap)
    → on_channels f m ≡ on_channels g m
on_channels_ext f g h [] = refl
on_channels_ext f g h ((i, interest) ∷ rest) =
    rw (on_channels_ext f g h rest, on_interest_ext (f i) (g i) (h i) interest) refl

-- What one entry of the set sends to a channel.
entry_sends : String → List Change → String → Change → Channel → Channel
entry_sends iface cs i k ch = if i == iface then send_all (filter (is_wanted k) cs) ch else ch

on_interest_if :
    (b : Bool) (f : Change → Channel → Channel) (interest : Interest)
    → (if b then on_interest f interest else interest)
      ≡ on_interest (λ k ch. if b then f k ch else ch) interest
on_interest_if true f interest = refl
on_interest_if false f interest = sym (on_interest_id interest)

notify_iface_lem :
    (iface : String) (cs : List Change) (m : ChangeMap)
    → notify_iface iface cs m ≡ on_channels (entry_sends iface cs) m
unfolding notify_iface entry_sends
notify_iface_lem iface cs [] = refl
notify_iface_lem iface cs ((i, interest) ∷ rest) =
    rw
      (
        notify_iface_lem iface cs rest,
        notify_changes_lem cs interest,
        on_interest_if (i == iface) (λ k. send_all (filter (is_wanted k) cs)) interest,
      )
      refl

pub filter-append :
    (p : Change → Bool) (xs ys : List Change) → filter p (xs ++ ys) ≡ filter p xs ++ filter p ys
unfolding filter
filter-append p [] ys = refl
filter-append p (x ∷ xs) ys = ground (arith, filter-append p xs ys)

pub send_all-append :
    (xs ys : List Change) (ch : Channel) → send_all (xs ++ ys) ch ≡ send_all ys (send_all xs ch)
send_all-append [] ys ch = refl
send_all-append (x ∷ xs) ys ch = send_all-append xs ys (send x ch)

entry_then_rest :
    (iface : String) (cs : List Change) (rest : ChangeSet) (i : String) (k : Change) (ch : Channel)
    → send_all (filter (is_wanted k) (gathered i rest)) (entry_sends iface cs i k ch)
      ≡ send_all (filter (is_wanted k) (gathered i ((iface, cs) ∷ rest))) ch
unfolding entry_sends
entry_then_rest iface cs rest i k ch = elim (Bool-cases (i == iface)) [
  | inl e ↦
      rw
        (
          e,
          filter-append (is_wanted k) cs (gathered i rest),
          send_all-append (filter (is_wanted k) cs),
        )
        refl
  | inr e ↦ rw e refl
]

-- Notifying of a set of changes sends to every channel, in order, the changes for its interface that
-- have a bit of its bitmask, and changes nothing else.
pub notify_lem :
    (changed : ChangeSet) (m : ChangeMap)
    → notify changed m ≡ on_channels (λ i k. send_all (filter (is_wanted k) (gathered i changed))) m
unfolding notify filter
notify_lem [] m = sym (on_channels_id m)
notify_lem ((iface, cs) ∷ rest) m =
    notify_lem rest (notify_iface iface cs m)
    ∙ ap (on_channels (λ i k. send_all (filter (is_wanted k) (gathered i rest))))
        (notify_iface_lem iface cs m)
    ∙ on_channels_twice _ _ m
    ∙ on_channels_ext _ _ (entry_then_rest iface cs rest) m
