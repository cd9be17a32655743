-- ===== src/Netstate/Gathering.antt =====
-- What a batch of messages becomes, and what a whole watch delivers.
use corerad.Common.{
  ◌≡◌, ◌∙◌, refl, sym, ap, Bool, true, false, String, List, [], ◌∷◌, ◌++◌, some, none, ◌==◌, nat_eq,
  string_eq, if◌then◌else◌, Bool-cases, Option-cases, inl, inr, All,
}
use mathlib.Core.List.{append-nil, append_assoc}
use corerad.Netstate.Names.{Change}
use corerad.Netstate.{
  ChangeSet, Message, link_message, other_message, oper_state_change, append_change, process_one,
  process_from, process,
}
use corerad.Netstate.Delivery.{gathered}

-- The change that a message is for an interface.
abbrev pub change_in : String → Message → List Change
change_in i (link_message (some (iface, state))) =
    if i == iface then (elim (oper_state_change state) [ none ↦ [] | some c ↦ c ∷ [] ]) else []
change_in i _ = []

abbrev pub changes_in : String → List Message → List Change
changes_in i [] = []
changes_in i (m ∷ ms) = change_in i m ++ changes_in i ms

-- No entry for the interface.
Absent : String → ChangeSet → Type 0
Absent i s = All (λ e. (i == e.0) ≡ false) s

IsDistinct : ChangeSet → Type 0
IsDistinct [] = Unit
IsDistinct ((i, cs) ∷ rest) = Absent i rest × IsDistinct rest

string_beq : (i j : String) → (i == j) ≡ true → i ≡ j
string_beq i j h = (string_eq.beq_iff i j).0 h

gathered-Absent : (i : String) (s : ChangeSet) → Absent i s → gathered i s ≡ []
unfolding Absent
gathered-Absent i [] h = refl
gathered-Absent i ((j, cs) ∷ rest) h = rw h.0 (gathered-Absent i rest h.1)

append_change-Absent :
    (i j : String) (c : Change) (s : ChangeSet)
    → (i == j) ≡ false
    → Absent i s
    → Absent i (append_change j c s)
unfolding Absent append_change
append_change-Absent i j c [] n h = (n, tt)
append_change-Absent i j c ((k, cs) ∷ rest) n h = elim (Bool-cases (k == j)) [
  | inl e ↦ rw (e, append_change) h
  | inr e ↦ rw (e, append_change) (h.0, append_change-Absent i j c rest n h.1)
]

append_change-IsDistinct :
    (j : String) (c : Change) (s : ChangeSet) → IsDistinct s → IsDistinct (append_change j c s)
unfolding IsDistinct append_change Absent
append_change-IsDistinct j c [] h = (tt, tt)
append_change-IsDistinct j c ((k, cs) ∷ rest) h = elim (Bool-cases (k == j)) [
  | inl e ↦ rw (e, append_change) h
  | inr e ↦
      rw (e, append_change)
        (append_change-Absent k j c rest e h.0, append_change-IsDistinct j c rest h.1)
]

gathered-append_change :
    (i j : String) (c : Change) (s : ChangeSet)
    → IsDistinct s
    → gathered i (append_change j c s) ≡ gathered i s ++ (if i == j then c ∷ [] else [])
unfolding append_change IsDistinct Absent
gathered-append_change i j c [] h = refl
gathered-append_change i j c ((k, cs) ∷ rest) h = elim (Bool-cases (k == j)) [
  | inl e ↦ elim (Bool-cases (i == k)) [
    | inl q ↦
        let none_left : gathered i rest ≡ [] = rw (string_beq i k q) (gathered-Absent k rest h.0) in
        rw (e, q, ← string_beq k j e, q, none_left, append-nil (cs ++ (c ∷ [])), append-nil cs) refl
    | inr q ↦ rw (e, q, ← string_beq k j e, q) (sym (append-nil (gathered i rest)))
  ]
  | inr e ↦ elim (Bool-cases (i == k)) [
    | inl q ↦
        rw (e, q, gathered-append_change i j c rest h.1) (sym (append_assoc cs (gathered i rest) _))
    | inr q ↦ rw (e, q) (gathered-append_change i j c rest h.1)
  ]
]

process_one-IsDistinct : (m : Message) (s : ChangeSet) → IsDistinct s → IsDistinct (process_one m s)
unfolding process_one
process_one-IsDistinct other_message s h = h
process_one-IsDistinct (link_message none) s h = h
process_one-IsDistinct (link_message (some (iface, state))) s h =
    elim (Option-cases (oper_state_change state)) [
      | inl e ↦ rw (e, process_one) h
      | inr (c, e) ↦ rw (e, process_one) (append_change-IsDistinct iface c s h)
    ]

if_nil : (b : Bool) → Path (List Change) [] (if b then [] else [])
if_nil true = refl
if_nil false = refl

gathered-process_one :
    (i : String) (m : Message) (s : ChangeSet)
    → IsDistinct s
    → gathered i (process_one m s) ≡ gathered i s ++ change_in i m
unfolding process_one
gathered-process_one i other_message s h = sym (append-nil (gathered i s))
gathered-process_one i (link_message none) s h = sym (append-nil (gathered i s))
gathered-process_one i (link_message (some (iface, state))) s h =
    elim (Option-cases (oper_state_change state)) [
      | inl e ↦ rw (e, process_one, ← if_nil (i == iface)) (sym (append-nil (gathered i s)))
      | inr (c, e) ↦ rw (e, process_one) (gathered-append_change i iface c s h)
    ]

gathered-process_from :
    (i : String) (msgs : List Message) (s : ChangeSet)
    → IsDistinct s
    → gathered i (process_from msgs s) ≡ gathered i s ++ changes_in i msgs
unfolding process_from
gathered-process_from i [] s h = sym (append-nil (gathered i s))
gathered-process_from i (m ∷ ms) s h =
    gathered-process_from i ms (process_one m s) (process_one-IsDistinct m s h)
    ∙ ap (λ r. r ++ changes_in i ms) (gathered-process_one i m s h)
    ∙ append_assoc (gathered i s) (change_in i m) (changes_in i ms)

-- The set that a batch of messages becomes holds for each interface the changes of its link messages
-- whose states are recognized, in order, and nothing else.
pub gathered-process :
    (i : String) (msgs : List Message) → gathered i (process msgs) ≡ changes_in i msgs
unfolding process IsDistinct
gathered-process i msgs = gathered-process_from i msgs [] tt
