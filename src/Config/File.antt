-- ===== src/Config/File.antt =====
-- Parse (config.go), from the decoded file.
pub mod Names
use corerad.Common.{
  ℕ, suc, Bool, true, false, not, ◌&&◌, String, List, [], ◌∷◌, ◌++◌, Option, some, none, Result, ok,
  err, ◌>>=◌, ◌>>◌, refuse, if◌then◌else◌, ◌==◌, string_eq, contains, wrap_err,
}
use corerad.Common.Int.{ℤ}
use corerad.Config.Types.{
  RawFile, RawInterface, Interface, Config, Debug, ConfigError, Library, no_interfaces,
  bad_debug_address, in_interface, repeated_interface,
}
use corerad.Config.Interfaces.{parse_interfaces}

-- The inner loop: each name once, with the names seen so far.
unfoldable pub see_names : ℕ → List String → List Interface → Result ConfigError (List String)
see_names i seen [] = ok seen
see_names i seen (ifi ∷ rest) = do
  refuse (contains seen ifi.name) (repeated_interface i ifi.name)
  see_names i (ifi.name ∷ seen) rest

module _ (lib : Library) where
  unfoldable pub parse_from :
      ℕ → List String → List Interface → List RawInterface → ℤ → Result ConfigError (List Interface)
  parse_from i seen out [] epoch = ok out
  parse_from i seen out (raw ∷ rest) epoch = do
    ifis ← wrap_err (in_interface i) (parse_interfaces lib raw epoch)
    seen' ← see_names i seen ifis
    parse_from (suc i) seen' (out ++ ifis) rest epoch

  unfoldable pub parse : RawFile → ℤ → Result ConfigError Config
  parse f epoch =
      let debug = f.debug in
      let unset : Debug = record { address = ""; prometheus = false; pprof = false } in
      elim f.interfaces [
        | [] ↦ err no_interfaces
        | ◌∷◌ raw rest ↦ do
          refuse (not (debug.address == "") && not (lib.resolves_tcp_addr debug.address))
              bad_debug_address
          interfaces ← parse_from 0 [] [] (raw ∷ rest) epoch
          ok (record {
            interfaces = interfaces;
            debug = if not (debug.address == "") then debug else unset;
          })
      ]
