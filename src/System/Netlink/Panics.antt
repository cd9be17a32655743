-- ===== src/System/Netlink/Panics.antt =====
-- When reading the routes of loopback interfaces panics.
use corerad.Common.{
  ℕ, ◌≡◌, ◌↔◌, refl, Bool, true, false, ◌&&◌, ◌||◌, not, List, [], ◌∷◌, ◌++◌, some, none, Result,
  ok, panic, map_result, arith, any, ◌%◌, ◌^◌, ◌⊎◌, Bool-cases, Option-cases, inl, inr, ◌==◌,
  nat_eq,
}
use corerad.System.{Error, Route}
use corerad.System.Netlink.{
  Constants, Message, Request, Interface, route_message, address_message, other_message, get_route,
  parse_ip6, to_route, routes_by_index, gather_routes, loopback_routes,
}

-- Not a message that describes a route to an IPv6 prefix.
abbrev pub is_unexpected : Constants → Message → Bool
is_unexpected unix (route_message family n a) =
    not (family == unix.af_inet6) || elim (parse_ip6 a.dst) [ none ↦ true | some _ ↦ false ]
is_unexpected unix _ = true

module _ (unix : Constants) where
  to_route_cases :
      (m : Message)
      → (((r : Route) × (to_route unix m ≡ ok r)) × (is_unexpected unix m ≡ false))
        ⊎ ((to_route unix m ≡ panic) × (is_unexpected unix m ≡ true))
  unfolding to_route
  to_route_cases (address_message f n a) = inr (refl, refl)
  to_route_cases other_message = inr (refl, refl)
  to_route_cases (route_message f n a) = elim (Bool-cases (f == unix.af_inet6)) [
    | inr e ↦ inr (rw e (refl, refl))
    | inl e ↦ elim (Option-cases (parse_ip6 a.dst)) [
      | inl q ↦ inr (rw (e, q) (refl, refl))
      | inr (ip, q) ↦ inl (rw (e, q) ((_, refl), refl))
    ]
  ]

  loop_cases :
      (msgs : List Message)
      → (((rs : List Route) × (map_result (to_route unix) msgs ≡ ok rs))
          × (any (is_unexpected unix) msgs ≡ false))
        ⊎ ((map_result (to_route unix) msgs ≡ panic) × (any (is_unexpected unix) msgs ≡ true))
  unfolding map_result any
  loop_cases [] = inl (([], refl), refl)
  loop_cases (m ∷ msgs) = elim (to_route_cases m) [
    | inr (p, u) ↦ inr (rw (p, u) (refl, refl))
    | inl ((r, p), u) ↦ elim (loop_cases msgs) [
      | inr (q, v) ↦ inr (rw (p, u, q, v) (refl, refl))
      | inl ((rs, q), v) ↦ inl (rw (p, u, q, v) ((_, refl), refl))
    ]
  ]

  -- The interface is read, and the answer for it holds an unexpected message.
  abbrev pub is_bad : (ℕ → List Message) → Interface → Bool
  is_bad answers ifi =
      ifi.is_loopback && (ifi.is_up && any (is_unexpected unix) (answers ifi.index))

  module _ (execute : Request → Result Error (List Message)) (answers : ℕ → List Message)
      (ok_all : (index : ℕ)
        → execute (get_route unix.af_inet6 (index % 2 ^ 32) unix.rt_table_main)
          ≡ ok (answers index)) where
    gather_panics :
        (ifis : List Interface) (routes : List Route)
        → (gather_routes unix execute routes ifis ≡ panic) ↔ (any (is_bad answers) ifis ≡ true)
    unfolding gather_routes any routes_by_index
    gather_panics [] routes = (λ h. cc, λ h. cc)
    gather_panics (ifi ∷ ifis) routes = elim (loop_cases (answers ifi.index)) [
      | inr (q, v) ↦ rw (ok_all ifi.index) (
        λ h. ground (arith, gather_panics ifis routes),
        λ h. ground (arith, gather_panics ifis routes),
      )
      | inl ((rs, q), v) ↦ rw (ok_all ifi.index) (
        λ h. ground (arith, gather_panics ifis routes, gather_panics ifis (routes ++ rs)),
        λ h. ground (arith, gather_panics ifis routes, gather_panics ifis (routes ++ rs)),
      )
    ]

    -- Where rtnetlink answers all requests, LoopbackRoutes panics just where an interface that is
    -- loopback and up has a message that is not a route of the IPv6 family with an IPv6 destination.
    pub loopback_routes_panics :
        (ifis : List Interface)
        → (loopback_routes unix execute (ok ifis) ≡ panic) ↔ (any (is_bad answers) ifis ≡ true)
    unfolding loopback_routes
    loopback_routes_panics ifis = gather_panics ifis []
