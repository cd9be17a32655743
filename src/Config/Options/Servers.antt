-- ===== src/Config/Options/Servers.antt =====
-- What parseRDNSS accepts, and the servers that it keeps.
use mathlib.Core.List.Memᴰ
use corerad.Common.{
  ◌≡◌, ◌≢◌, refl, sym, ◌⊎◌, inl, inr, Bool, true, false, String, List, [], ◌∷◌, some, Memᴰ, arith,
  Option-cases, ok, contains, contains-ne, All, AllPairs, All-map, All-of_mem, Result-cases, ◌∙◌,
  sort_by, sort_by-sorted, sort_by-AllPairs, All-sort_by, mem-sort_by,
}
use corerad.Common.Int.{ℤ}
use corerad.Netip.Addr
use corerad.Netip.Addr.{Addr, addr_eq, leb-IsOrder}
use corerad.Plugin.Types.{RdnssPlugin}
use corerad.Config.Types.{RawRdnss, Library}
use corerad.Config.Options.{parse_servers, parse_server_list, parse_rdnss}

module _ (lib : Library) where
  -- The text names the wildcard, and the flag is set; or it names a server of the list.
  abbrev pub IsKept : Bool → List Addr → String → Type 0
  IsKept auto out s =
      (ip : Addr) × (lib.parse_go_addr s ≡ some ip)
      × (((Addr.is_unspecified ip ≡ true) × (auto ≡ true)) ⊎ Memᴰ ip out)

  -- A server is an IPv6 address, unmapped and no wildcard, that one of the texts names.
  abbrev pub IsServer : List String → Addr → Type 0
  IsServer ss ip =
      (Addr.is6 ip ≡ true)
      × (Addr.is4_in6 ip ≡ false)
      × (Addr.is_unspecified ip ≡ false)
      × ((s : String) × Memᴰ s ss × (lib.parse_go_addr s ≡ some ip))

  servers_step :
      (auto : Bool) (servers : List Addr) (s : String) (rest : List String) {r : Bool × List Addr}
      → parse_servers lib auto servers (s ∷ rest) ≡ ok r
      → (ip : Addr) × (lib.parse_go_addr s ≡ some ip)
        × (Addr.is6 ip ≡ true)
        × (Addr.is4_in6 ip ≡ false)
        × (((Addr.is_unspecified ip ≡ true) × (parse_servers lib true servers rest ≡ ok r))
            ⊎ ((Addr.is_unspecified ip ≡ false)
                × (contains servers ip ≡ false)
                × (parse_servers lib auto (ip ∷ servers) rest ≡ ok r)))
  unfolding parse_servers
  servers_step auto servers s rest {r} h = elim (Option-cases (lib.parse_go_addr s)) [
    | inl e ↦ ground arith
    | inr (ip, e) ↦ (ip, e, ground arith, ground arith, ground arith)
  ]

  -- One of the texts names the wildcard.
  abbrev pub HasWildcard : List String → Type 0
  HasWildcard ss =
      (s : String) × (ip : Addr) × Memᴰ s ss
      × (lib.parse_go_addr s ≡ some ip)
      × (Addr.is_unspecified ip ≡ true)

  -- What the loop returns for the texts `ss`, from the flag `auto` and the set `servers`.
  record Kept (auto : Bool) (servers : List Addr) (ss : List String) (r : Bool × List Addr)
      : Type 0 where
    flag_stays : auto ≡ true → r.0 ≡ true
    flag_origin : r.0 ≡ true → (auto ≡ true) ⊎ HasWildcard ss
    member_stays : (ip : Addr) → Memᴰ ip servers → Memᴰ ip r.1
    member_origin : (ip : Addr) → Memᴰ ip r.1 → Memᴰ ip servers ⊎ IsServer ss ip
    distinct : AllPairs ◌≢◌ servers → AllPairs ◌≢◌ r.1
    all_kept : All (IsKept r.0 r.1) ss

  later-IsServer :
      (s : String) (rest : List String) (ip : Addr) → IsServer rest ip → IsServer (s ∷ rest) ip
  later-IsServer s rest ip (six, un, w, (t, m, e)) = (six, un, w, (t, Memᴰ.tail m, e))

  later_wildcard : (s : String) (rest : List String) → HasWildcard rest → HasWildcard (s ∷ rest)
  later_wildcard s rest (t, ip, m, e, w) = (t, ip, Memᴰ.tail m, e, w)

  Kept-wildcard :
      {auto : Bool} {servers : List Addr} {s : String} {rest : List String} {r : Bool × List Addr}
      (ip : Addr)
      → lib.parse_go_addr s ≡ some ip
      → Addr.is_unspecified ip ≡ true
      → Kept true servers rest r
      → Kept auto servers (s ∷ rest) r
  Kept-wildcard {s = s} {rest = rest} ip e w k = record {
    flag_stays = λ _. k.flag_stays refl;
    flag_origin = λ _. inr (s, ip, Memᴰ.head refl, e, w);
    member_stays = k.member_stays;
    member_origin = λ a m. elim (k.member_origin a m) [
      | inl n ↦ inl n
      | inr n ↦ inr (later-IsServer s rest a n)
    ];
    distinct = k.distinct;
    all_kept = ((ip, e, inl (w, k.flag_stays refl)), k.all_kept);
  }

  Kept-server :
      {auto : Bool} {servers : List Addr} {s : String} {rest : List String} {r : Bool × List Addr}
      (ip : Addr)
      → lib.parse_go_addr s ≡ some ip
      → (Addr.is6 ip ≡ true) × (Addr.is4_in6 ip ≡ false) × (Addr.is_unspecified ip ≡ false)
      → contains servers ip ≡ false
      → Kept auto (ip ∷ servers) rest r
      → Kept auto servers (s ∷ rest) r
  Kept-server {servers = servers} {s = s} {rest = rest} ip e (six, un, w) c k = record {
    flag_stays = k.flag_stays;
    flag_origin =
        λ h. elim (k.flag_origin h) [ inl n ↦ inl n | inr n ↦ inr (later_wildcard s rest n) ];
    member_stays = λ a m. k.member_stays a (Memᴰ.tail m);
    member_origin = λ a m. elim (k.member_origin a m) [
      | inl n ↦ elim (Memᴰ.cases_cons n) [
        | inl q ↦ inr (rw q (six, un, w, (s, Memᴰ.head refl, e)))
        | inr n' ↦ inl n'
      ]
      | inr n ↦ inr (later-IsServer s rest a n)
    ];
    distinct = λ d. k.distinct (contains-ne servers ip c, d);
    all_kept = ((ip, e, inr (k.member_stays ip (Memᴰ.head refl))), k.all_kept);
  }

  parse_servers-Kept :
      (auto : Bool) (servers : List Addr) (ss : List String) {r : Bool × List Addr}
      → parse_servers lib auto servers ss ≡ ok r
      → Kept auto servers ss r
  unfolding parse_servers
  parse_servers-Kept auto servers [] {r} h =
      let e : (auto, servers) ≡ r = cc in
      rw (← e) (record {
        flag_stays = λ f. f;
        flag_origin = inl;
        member_stays = λ a m. m;
        member_origin = λ a m. inl m;
        distinct = λ d. d;
        all_kept = tt;
      })
  parse_servers-Kept auto servers (s ∷ rest) {r} h =
      let (ip, e, six, un, next) = servers_step auto servers s rest h in
      elim next [
        | inl (w, k) ↦ Kept-wildcard ip e w (parse_servers-Kept true servers rest k)
        | inr (w, c, k) ↦
            Kept-server ip e (six, un, w) c (parse_servers-Kept auto (ip ∷ servers) rest k)
      ]

-- What an RDNSS plugin satisfies when the configuration is accepted.
pub record IsAccepted (lib : Library) (raw : RawRdnss) (q : RdnssPlugin) : Type 0 where
  pub sorted : AllPairs (λ a b. Addr.leb a b ≡ true) q.servers
  pub distinct : AllPairs ◌≢◌ q.servers
  pub named : All (IsServer lib raw.servers) q.servers
  pub kept : All (IsKept lib q.auto q.servers) raw.servers
  pub auto_origin : q.auto ≡ true → (raw.servers ≡ []) ⊎ HasWildcard lib raw.servers

parsed_servers :
    (lib : Library) (raw : RawRdnss) (max_interval : ℤ) {q : RdnssPlugin}
    → parse_rdnss lib raw max_interval ≡ ok q
    → (r : Bool × List Addr) × (parse_server_list lib raw.servers ≡ ok r)
      × (q.auto ≡ r.0)
      × (q.servers ≡ sort_by Addr.leb r.1)
unfolding parse_rdnss
parsed_servers lib raw max_interval h = elim (Result-cases (parse_server_list lib raw.servers)) [
  | inl (r, e) ↦ (r, e, ground arith, ground arith)
  | inr no_list ↦ absurd (ground arith)
]

-- An empty list keeps nothing, and any other is the loop's.
list-Kept :
    (lib : Library) (ss : List String) {r : Bool × List Addr}
    → parse_server_list lib ss ≡ ok r
    → ((ss ≡ []) × (r ≡ (true, []))) ⊎ Kept lib false [] ss r
unfolding parse_server_list
list-Kept lib [] h = inl (refl, cc)
list-Kept lib (s ∷ rest) h = inr (parse_servers-Kept lib false [] (s ∷ rest) h)

IsAccepted-list :
    (lib : Library) (raw : RawRdnss) (q : RdnssPlugin) (r : Bool × List Addr)
    → q.auto ≡ r.0
    → q.servers ≡ sort_by Addr.leb r.1
    → ((raw.servers ≡ []) × (r ≡ (true, []))) ⊎ Kept lib false [] raw.servers r
    → IsAccepted lib raw q
unfolding sort_by
IsAccepted-list lib raw q r a s (inl (e, f)) =
    let none_left : q.servers ≡ [] = rw f at s in
    record {
      sorted = rw none_left tt;
      distinct = rw none_left tt;
      named = rw none_left tt;
      kept = rw e tt;
      auto_origin = λ _. inl e;
    }
IsAccepted-list lib raw q r a s (inr k) = record {
  sorted = rw s (sort_by-sorted Addr.leb leb-IsOrder r.1);
  distinct = rw s (sort_by-AllPairs Addr.leb ◌≢◌ (λ x y n e. n (sym e)) r.1 (k.distinct tt));
  named = rw s (
      All-sort_by Addr.leb (IsServer lib raw.servers) r.1
        (All-of_mem (IsServer lib raw.servers) r.1 (λ ip m. named_by ip (k.member_origin ip m))));
  kept = rw (a, s) (All-map still_kept raw.servers k.all_kept);
  auto_origin = λ h. elim (k.flag_origin (sym a ∙ h)) [ inl n ↦ cc | inr n ↦ inr n ];
}
  where
    named_by : (ip : Addr) → Memᴰ ip [] ⊎ IsServer lib raw.servers ip → IsServer lib raw.servers ip
    named_by ip (inl n) = elim n [ ]
    named_by ip (inr n) = n

    still_kept : (t : String) → IsKept lib r.0 r.1 t → IsKept lib r.0 (sort_by Addr.leb r.1) t
    still_kept t (ip, e, inl w) = (ip, e, inl w)
    still_kept t (ip, e, inr m) = (ip, e, inr (mem-sort_by Addr.leb ip r.1 m))

-- The servers of an accepted stanza are in ascending order and distinct; each is an IPv6 address
-- named by one of its texts, and every text names one of them or the wildcard ::, which sets the
-- automatic mode; that mode is set for no other reason than the wildcard or an empty list.
pub parse_rdnss-IsAccepted :
    (lib : Library) (raw : RawRdnss) (max_interval : ℤ) {q : RdnssPlugin}
    → parse_rdnss lib raw max_interval ≡ ok q
    → IsAccepted lib raw q
parse_rdnss-IsAccepted lib raw max_interval {q} h =
    let (r, e, a, s) = parsed_servers lib raw max_interval h in
    IsAccepted-list lib raw q r a s (list-Kept lib raw.servers e)
