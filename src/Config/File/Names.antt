-- ===== src/Config/File/Names.antt =====
-- The interfaces of an accepted file: all of them, in order, each name once (Parse).
use mathlib.Core.List.{append_assoc, append-nil}
use corerad.Common.{
  ℕ, suc, ◌≡◌, ◌≢◌, sym, ◌∙◌, ap, true, false, not, ◌&&◌, if◌then◌else◌, String, List, [], ◌∷◌,
  ◌++◌, map, arith, Result, ok, contains, All, AllPairs, not-contains-cons, >>=-eq-ok,
  wrap_err-eq-ok, refuse-eq-ok, refuse, Bool-cases, inl, inr, string_eq, ◌==◌,
}
use corerad.Common.Int.{ℤ}
use corerad.Config.Types.{
  RawFile, RawInterface, Interface, Config, Debug, Library, bad_debug_address,
}
use corerad.Config.Interfaces.{parse_interfaces}
use corerad.Config.File.{see_names, parse_from, parse}

abbrev pub names_of : List Interface → List String
names_of = map (λ ifi. ifi.name)

-- The interfaces of the stanzas, one after the other.
pub data Expands (lib : Library) (epoch : ℤ) : List RawInterface → List Interface → Type 0 where
  done : Expands lib epoch [] []
  stanza :
      {raw : RawInterface} {rest : List RawInterface} {ifis out : List Interface}
      → parse_interfaces lib raw epoch ≡ ok ifis
      → Expands lib epoch rest out
      → Expands lib epoch (raw ∷ rest) (ifis ++ out)

-- Taking an interface's name leaves it out of the names seen before.
IsUnseen : List String → List Interface → Type 0
IsUnseen seen = All (λ ifi. contains seen ifi.name ≡ false)

IsDistinct : List Interface → Type 0
IsDistinct = AllPairs (λ a b. a.name ≢ b.name)

newer :
    (name : String) (seen : List String) (ifis : List Interface)
    → IsUnseen (name ∷ seen) ifis
    → All (λ b. name ≢ b.name) ifis × IsUnseen seen ifis
unfolding IsUnseen
newer name seen [] h = (tt, tt)
newer name seen (ifi ∷ rest) h =
    let (p, q) = newer name seen rest h.1 in
    let (a, b) = not-contains-cons name seen ifi.name h.0 in ((λ e. a (sym e), p), (b, q))

-- Distinct names before `later` that are all unseen make the whole list so.
see_names-IsDistinct :
    (i : ℕ) (seen : List String) (ifis later : List Interface) {seen' : List String}
    → see_names i seen ifis ≡ ok seen'
    → IsUnseen seen' later
    → IsDistinct later
    → IsUnseen seen (ifis ++ later) × IsDistinct (ifis ++ later)
unfolding see_names IsUnseen IsDistinct
see_names-IsDistinct i seen [] later {seen'} h u d = let e : seen ≡ seen' = cc in rw e (u, d)
see_names-IsDistinct i seen (ifi ∷ rest) later h u d =
    let (o, e, h') = >>=-eq-ok (refuse (contains seen ifi.name) _) _ h in
    let (u', d') = see_names-IsDistinct i (ifi.name ∷ seen) rest later h' u d in
    let (n, s) = newer ifi.name seen (rest ++ later) u' in ((refuse-eq-ok _ _ e, s), (n, d'))

ok_inj : {E A : Type 0} {x y : A} → Path (Result E A) (ok x) (ok y) → x ≡ y
ok_inj h = cc

kept :
    (debug unset : Debug)
    → (if not (debug.address == "") then debug else record unset { address = "" }).address
      ≡ debug.address
kept debug unset = elim (Bool-cases (debug.address == "")) [
  | inl e ↦ rw (e, (string_eq.beq_iff debug.address "").0 e)
  | inr e ↦ rw e
]

module _ (lib : Library) (epoch : ℤ) where
  parse_from_lem :
      (i : ℕ) (seen : List String) (out : List Interface) (raws : List RawInterface)
      {all : List Interface}
      → parse_from lib i seen out raws epoch ≡ ok all
      → (ifis : List Interface) × (all ≡ out ++ ifis)
        × Expands lib epoch raws ifis
        × IsUnseen seen ifis
        × IsDistinct ifis
  unfolding parse_from IsUnseen IsDistinct
  parse_from_lem i seen out [] {all} h =
      let e : out ≡ all = cc in ([], (sym e ∙ sym (append-nil out)), done, tt, tt)
  parse_from_lem i seen out (raw ∷ rest) h =
      let (ifis, e, h1) = >>=-eq-ok _ _ h in
      let (seen', e', h2) = >>=-eq-ok _ _ h1 in
      let (more, p, x, u, d) = parse_from_lem (suc i) seen' (out ++ ifis) rest h2 in
      let (u', d') = see_names-IsDistinct i seen ifis more e' u d in
      (ifis ++ more, p ∙ append_assoc out ifis more, stanza (wrap_err-eq-ok _ _ e) x, u', d')

  parse_stanzas :
      (debug : Debug) (raws : List RawInterface) {c : Config}
      → parse lib (record { interfaces = raws; debug = debug }) epoch ≡ ok c
      → (raws ≢ [])
        × Expands lib epoch raws c.interfaces
        × IsDistinct c.interfaces
        × (c.debug.address ≡ debug.address)
        × ((debug.address == "") ≡ false → lib.resolves_tcp_addr debug.address ≡ true)
  unfolding parse
  parse_stanzas debug [] h = cc
  parse_stanzas debug (raw ∷ rest) {c} h =
      let bad = not (debug.address == "") && not (lib.resolves_tcp_addr debug.address) in
      let (o, e, h1) = >>=-eq-ok (refuse bad bad_debug_address) _ h in
      let (ifis, e', h2) = >>=-eq-ok (parse_from lib 0 [] [] (raw ∷ rest) epoch) _ h1 in
      let (all, p, x, u, d) = parse_from_lem 0 [] [] (raw ∷ rest) e' in
      let q : all ≡ c.interfaces = sym p ∙ ap (λ r. r.interfaces) (ok_inj h2) in
      (
        λ z. cc,
        rw (← q) x,
        rw (← q) d,
        ap (λ r. r.debug.address) (sym (ok_inj h2))
            ∙ kept debug (record { address = ""; prometheus = false; pprof = false }),
        λ n. ground arith,
      )

  -- An accepted file has an interface stanza, and its interfaces are those of the stanzas, all of
  -- them and in order; no two have one name; the debug address is the file's, and resolves unless
  -- it is empty.
  pub parse-IsDistinct :
      (f : RawFile) {c : Config}
      → parse lib f epoch ≡ ok c
      → (f.interfaces ≢ [])
        × Expands lib epoch f.interfaces c.interfaces
        × AllPairs (λ a b. a.name ≢ b.name) c.interfaces
        × (c.debug.address ≡ f.debug.address)
        × ((f.debug.address == "") ≡ false → lib.resolves_tcp_addr f.debug.address ≡ true)
  unfolding IsDistinct
  parse-IsDistinct f h = parse_stanzas f.debug f.interfaces h
