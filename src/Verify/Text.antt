-- ===== src/Verify/Text.antt =====
-- The texts of the comparison (verify.go): newProblem, sourceLLA and ipsStr.
use corerad.Common.{
  ℕ, ◌≡◌, refl, Bool, true, false, not, String, List, [], ◌∷◌, map, Option, some, none, Result, ok,
  panic, ◌==◌, string_eq, if◌then◌else◌,
}
use corerad.Common.Int.{ℤ, pos}
use corerad.Netip.Addr.{Addr}
use corerad.Ndp.{NdpOption}
use corerad.Ndp
use corerad.System.{Error}
use corerad.Plugin.Text.{Texts, joined, join}
use corerad.Verify.Problems.{Message, numbers, flags, durations, addresses, names, texts}

-- A value of type any: the name of its type, whether that is string, what its method String returns,
-- if it has one, and its text by the verb %v.
pub record Value : Type 0 where
  pub type_name : String
  pub is_string : Bool
  pub stringer : Option String
  pub plain : String

pub record TextProblem : Type 0 where
  pub field : String
  pub details : String
  pub message : String

-- "want: %q, got: %q" and "want: %v, got: %v".
abbrev pub compared : String → String → String
compared want got = joined ("want: " ∷ want ∷ ", got: " ∷ got ∷ [])

module _ (print : Texts) where
  open print use {quoted}

  -- The texts of two values with a method String, and else those by %v.
  unfoldable pub stringers : Value → Value → String
  stringers want got = elim want.stringer [
    | none ↦ compared want.plain got.plain
    | some w ↦ elim got.stringer [
      | none ↦ compared want.plain got.plain
      | some g ↦ compared (quoted w) (quoted g)
    ]
  ]

  unfoldable pub new_problem : String → String → Value → Value → Result Error TextProblem
  new_problem field details want got =
      if not (want.type_name == got.type_name)
      then panic
      else ok (record {
        field = field;
        details = details;
        message =
            if want.is_string
            then (if got.is_string
                then compared (quoted want.plain) (quoted got.plain)
                else stringers want got)
            else stringers want got;
      })

  -- ipsStr.
  unfoldable pub ips_str : List Addr → String
  ips_str ips = join (map print.addr ips)

  -- The text of a source link-layer address.
  abbrev as_source : NdpOption → Option String
  as_source (Ndp.link_layer_address l) =
      if l.source then some (print.hardware_addr l.addr) else none
  as_source _ = none

  -- sourceLLA.
  unfoldable pub source_lla : List NdpOption → String
  source_lla [] = "unknown"
  source_lla (o ∷ os) = let rest = source_lla os in elim (as_source o) [ some s ↦ s | none ↦ rest ]

  abbrev text : String → Value
  text s = record { type_name = "string"; is_string = true; stringer = none; plain = s }

  abbrev duration : ℤ → Value
  duration d = record {
    type_name = "time.Duration";
    is_string = false;
    stringer = some (print.duration d);
    plain = print.duration d;
  }

  abbrev number : String → ℕ → Value
  number type n = record {
    type_name = type;
    is_string = false;
    stringer = none;
    plain = print.number (pos n);
  }

  abbrev flag : Bool → Value
  flag b = record {
    type_name = "bool";
    is_string = false;
    stringer = none;
    plain = if b then "true" else "false";
  }

  -- The arguments want and got of a call of push. Numbers are of several types, but of one in a call.
  unfoldable pub arguments : String → Message → Value × Value
  arguments type (numbers a b) = (number type a, number type b)
  arguments type (flags a b) = (flag a, flag b)
  arguments type (durations a b) = (duration a, duration b)
  arguments type (addresses a b) = (text (ips_str a), text (ips_str b))
  arguments type (names a b) = (text (join a), text (join b))
  arguments type (texts a b) = (text a, text b)

  -- The text that a message stands for: durations and texts are quoted, numbers and flags are not.
  unfoldable pub message_text : Message → String
  message_text (numbers a b) = compared (print.number (pos a)) (print.number (pos b))
  message_text (flags a b) =
      compared (if a then "true" else "false") (if b then "true" else "false")
  message_text (durations a b) = compared (quoted (print.duration a)) (quoted (print.duration b))
  message_text (addresses a b) = compared (quoted (ips_str a)) (quoted (ips_str b))
  message_text (names a b) = compared (quoted (join a)) (quoted (join b))
  message_text (texts a b) = compared (quoted a) (quoted b)

  -- newProblem does not panic on the arguments of any call in the checks, and makes the text that the
  -- message of the model stands for.
  pub new_problem_lem :
      (field details type : String) (m : Message)
      → new_problem field details (arguments type m).0 (arguments type m).1
        ≡ ok (record { field = field; details = details; message = message_text m })
  unfolding new_problem stringers arguments message_text
  new_problem_lem field details type (numbers a b) = rw ((string_eq.beq_iff type type).1 refl) refl
  new_problem_lem field details type (flags a b) = refl
  new_problem_lem field details type (durations a b) = refl
  new_problem_lem field details type (addresses a b) = refl
  new_problem_lem field details type (names a b) = refl
  new_problem_lem field details type (texts a b) = refl
