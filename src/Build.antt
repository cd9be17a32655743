-- ===== src/Build.antt =====
-- The metadata of a build (internal/build/build.go).
use Prim.Native.String.{◌++◌ as concat}
use corerad.Common.{
  ◌+◌, ◌*◌, String, Option, some, none, Result, ok, panic, ◌==◌, string_eq, if◌then◌else◌, ◌>>=◌,
}
use corerad.Common.Int.{ℤ, pos, negsuc, ◌+ℤ◌, int_eq}
use corerad.System.{Error}

-- The strings that the linker sets, empty where it does not.
pub record Link : Type 0 where
  pub timestamp : String
  pub version : String

-- The nanoseconds of whole seconds.
abbrev pub nanoseconds : ℤ → ℤ
nanoseconds (pos n) = pos (n * 1000000000)
nanoseconds (negsuc n) = negsuc (n * 1000000000 + 999999999)

-- strconv.ParseInt and Time.Format, for the date.
module _ (parse_int : String → Option ℤ) (format : ℤ → String) where
  -- Time: nanoseconds since the zero Time.
  unfoldable pub time : Link → Result Error ℤ
  time l = if l.timestamp == "" then ok (pos 0) else elim (parse_int l.timestamp) [
    | none ↦ panic
    | some s ↦ ok (nanoseconds (s +ℤ pos 62135596800))
  ]

  unfoldable pub version : Link → String
  version l = if l.version == "" then "development" else l.version

  unfoldable pub banner : Link → Result Error String
  banner l = do
    t ← time l
    ok (
        concat "CoreRAD "
          (concat (version l) (concat " (" (concat (if t == pos 0 then "n/a" else format t) ")"))))
