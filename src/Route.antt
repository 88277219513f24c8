-- ===== src/Route.antt =====
-- libCSP/trunk/src/csp_route.c and csp_route.h: the routing table and the list of interfaces. An
-- interface is known by its address, a number.
pub mod Table
pub mod Input
pub mod Dispatch
pub mod Promisc
mod Tests
use cubesat_space_protocol.Base.{
  ℕ, zero, suc, ◌+◌, ◌%◌, ◌^◌, List, [], ◌∷◌, Option, none, some, get_or, set, ◌==◌, leb, Bool,
  true, false, if◌then◌else◌,
}
use cubesat_space_protocol.Header.{default_route}

-- `csp_route_t`; NULL is `none`.
pub record Route : Type 0 where
  pub interface : Option ℕ
  pub nexthop_mac_addr : ℕ

-- `routes` and `interfaces`.
pub record Routing : Type 0 where
  pub routes : List Route
  pub interfaces : List ℕ

abbrev pub no_route : Route
no_route = record { interface = none; nexthop_mac_addr = 0 }

abbrev pub has_interface : Route → Bool
has_interface r = elim r.interface [ none ↦ false | some i ↦ true ]

-- The walk along `interfaces` in `csp_route_set`, to `ifc` or to the end.
walk : ℕ → List ℕ → ℕ → List ℕ
walk i [] ifc = if i == ifc then i ∷ [] else i ∷ ifc ∷ []
walk i (j ∷ js) ifc = let rest = walk j js ifc in if i == ifc then i ∷ j ∷ js else i ∷ rest

add_interface : List ℕ → Option ℕ → List ℕ
unfolding walk
add_interface is none = is
add_interface [] (some ifc) = ifc ∷ []
add_interface (i ∷ is) (some ifc) = walk i is ifc

-- `csp_route_set`. (It returns CSP_ERR_NONE, for an invalid node too.)
unfoldable pub route_set : Routing → ℕ → Option ℕ → ℕ → Routing
unfolding add_interface
route_set t node ifc mac = record {
  routes =
      if leb node default_route
      then set t.routes node (record { interface = ifc; nexthop_mac_addr = mac })
      else t.routes;
  interfaces = add_interface t.interfaces ifc;
}

-- `csp_route_if`: the index of the entry that it points to.
unfoldable pub route_if : Routing → ℕ → Option ℕ
route_if t id =
    if has_interface (get_or t.routes id no_route)
    then some id
    else if has_interface (get_or t.routes default_route no_route)
    then some default_route
    else none

-- `csp_route_get_nexthop_mac`; `none` is a read through NULL.
unfoldable pub nexthop_mac : Routing → ℕ → Option ℕ
unfolding route_if
nexthop_mac t node = elim (route_if t node) [
  | none ↦ none
  | some k ↦ some (get_or t.routes k no_route).nexthop_mac_addr
]
