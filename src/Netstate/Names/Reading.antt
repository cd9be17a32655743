-- ===== src/Netstate/Names/Reading.antt =====
-- Reading the text of a bitmask of changes back.
use Prim.Native.String.{◌++◌ as concat}
use Prim.Native.Char.{code}
use corerad.Common.{
  ℕ, zero, suc, ◌+◌, ◌*◌, ◌<◌, ◌≡◌, refl, Bool, true, false, ◌&&◌, String, List, [], ◌∷◌, Option,
  some, none, ◌==◌, nat_eq, string_eq, if◌then◌else◌, arith,
}
use corerad.Netstate.Names.{Change, link_any, change_strings, append_names, string}

-- The parts of a text between the bars, after the part so far.
split_from : String → String → List String
split_from part String.[] = part ∷ []
split_from part (String.◌∷◌ c rest) =
    if code c == 124
    then part ∷ split_from "" rest
    else split_from (concat part (String.◌∷◌ c String.[])) rest

-- The bits of the names, in ascending order, that the parts are, or `none` for another part.
unfoldable pub read_names : ℕ → List String → List String → Option Change
read_names bit [] [] = some 0
read_names bit [] (part ∷ parts) = none
read_names bit (name ∷ names) [] = some 0
read_names bit (name ∷ names) (part ∷ parts) =
    let skip = read_names (bit * 2) names (part ∷ parts) in
    if part == name
    then (elim (read_names (bit * 2) names parts) [ none ↦ none | some c ↦ some (bit + c) ])
    else skip

unfoldable pub read : String → Option Change
unfolding split_from
read s =
    if s == "link ANY"
    then some link_any
    else if s == "0"
    then some 0
    else read_names 1 change_strings (split_from "" s)

is_read_back : Change → Bool
unfolding read string append_names read_names
is_read_back c = elim (read (string c)) [ none ↦ false | some d ↦ c == d ]

all_below : ℕ → (ℕ → Bool) → Bool
all_below zero p = true
all_below (suc n) p = p n && all_below n p

all_below_lem : (n : ℕ) (p : ℕ → Bool) (x : ℕ) → all_below n p ≡ true → x < n → p x ≡ true
unfolding all_below
all_below_lem zero p x h lt = absurd (omega arith)
all_below_lem (suc n) p x h lt = ground (arith, all_below_lem n p x)

table : all_below 128 is_read_back ≡ true
unfolding all_below is_read_back read string append_names read_names split_from
table = refl

same :
    (c : Change) (o : Option Change) → elim o [ none ↦ false | some d ↦ c == d ] ≡ true → o ≡ some c
same c o h = ground arith

-- The text of every combination of the seven changes can be read back, so that different
-- combinations have different texts.
pub read-string : (c : Change) → c < 128 → read (string c) ≡ some c
unfolding is_read_back
read-string c h = same c (read (string c)) (all_below_lem 128 is_read_back c table h)
