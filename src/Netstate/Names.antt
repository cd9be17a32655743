-- ===== src/Netstate/Names.antt =====
-- The bitmask of changes (internal/netstate/change.go).
pub mod Reading
use Prim.Native.Nat.{bit_and}
use Prim.Native.String.{◌++◌ as concat}
use corerad.Common.{
  ℕ, zero, suc, ◌+◌, ◌^◌, Bool, true, false, not, String, List, [], ◌∷◌, ◌==◌, nat_eq, string_eq,
  if◌then◌else◌,
}

abbrev pub Change : Type 0
Change = ℕ

abbrev pub link_up : Change
link_up = 1

abbrev pub link_down : Change
link_down = 2

abbrev pub link_testing : Change
link_testing = 4

abbrev pub link_unknown : Change
link_unknown = 8

abbrev pub link_dormant : Change
link_dormant = 16

abbrev pub link_not_present : Change
link_not_present = 32

abbrev pub link_lower_layer_down : Change
link_lower_layer_down = 64

-- LinkAny: the seven bits together.
abbrev pub link_any : Change
link_any = 127

abbrev pub change_strings : List String
change_strings =
    "link up" ∷ "link down" ∷ "link testing" ∷ "link unknown" ∷ "link dormant" ∷ "link not present"
    ∷ "link lower layer down" ∷ []

-- The loop over the names from number `i` on, with the text so far.
unfoldable pub append_names : Change → ℕ → List String → String → String
append_names c i [] s = s
append_names c i (name ∷ names) s =
    append_names c (suc i) names
      (if bit_and c (2 ^ i) == 0 then s else if s == "" then name else concat (concat s "|") name)

unfoldable pub string : Change → String
string c =
    if c == link_any
    then "link ANY"
    else (let s = append_names c 0 change_strings "" in if s == "" then "0" else s)
