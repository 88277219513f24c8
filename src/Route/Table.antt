-- ===== src/Route/Table.antt =====
-- libCSP/trunk/src/csp_route.c: which way a packet goes once the routes are set, and which interfaces
-- are known.
use cubesat_space_protocol.Base.{
  ℕ, suc, ◌+◌, ◌≤◌, ◌≡◌, List, [], ◌∷◌, Option, none, some, get_or, length, get_or-set_self,
  get_or-set_ne, ◌==◌, leb, Bool, true, false, refl, ap₂, eq→==, ne→==, ◌∙◌, sym, arith,
  if◌then◌else◌,
}
use native.Mathlib.Decide.{ℕ_discrete as dec_eq}
use cubesat_space_protocol.Header.{default_route}
use cubesat_space_protocol.Route.{
  Route, Routing, no_route, has_interface, walk, add_interface, route_set, route_if,
}

-- The entry that a packet for `id` is sent by, and the entry that the table ought to give: the
-- node's own if it has an interface, or else the default.
abbrev pub resolved : Routing → ℕ → Option Route
resolved t id = elim (route_if t id) [ none ↦ none | some k ↦ some (get_or t.routes k no_route) ]

abbrev pub choice : Route → Route → Option Route
choice own default =
    if has_interface own then some own else if has_interface default then some default else none

abbrev pub entry_after : Routing → ℕ → Route → ℕ → Route
entry_after t node r id = if id == node then r else get_or t.routes id no_route

entry-route_set :
    (t : Routing) (node mac id : ℕ) (ifc : Option ℕ)
    → length t.routes ≡ default_route + 1
    → node ≤ default_route
    → get_or (route_set t node ifc mac).routes id no_route
      ≡ entry_after t node (record { interface = ifc; nexthop_mac_addr = mac }) id
unfolding route_set
entry-route_set t node mac id ifc len h =
    let inside : leb node default_route ≡ true = ground arith in
    rw inside (elim (dec_eq node id) [
      | yes e ↦
          rw (sym e, eq→== node node refl)
            (get_or-set_self t.routes node (record { interface = ifc; nexthop_mac_addr = mac })
              no_route (omega arith))
      | no e ↦ rw (ne→== id node (λ q. e (sym q))) (
          get_or-set_ne t.routes node id (record { interface = ifc; nexthop_mac_addr = mac })
            no_route e)
    ])

through :
    (t : Routing) (id : ℕ) (own default : Bool)
    → elim (if own then some id else if default then some default_route else none) [
      | none ↦ none
      | some k ↦ some (get_or t.routes k no_route)
    ]
      ≡ (if own
          then some (get_or t.routes id no_route)
          else if default
          then some (get_or t.routes default_route no_route)
          else none)
through t id true d = refl
through t id false true = refl
through t id false false = refl

resolved_lem :
    (t : Routing) (id : ℕ)
    → resolved t id ≡ choice (get_or t.routes id no_route) (get_or t.routes default_route no_route)
unfolding route_if
resolved_lem t id =
    through t id (has_interface (get_or t.routes id no_route))
      (has_interface (get_or t.routes default_route no_route))

-- Once a route is set for a node or as the default, a packet for any node goes by the node's own entry if that has an interface, or else by the default one, where the entry set is the new one and all others are as before; without either there is no way.
pub route_if-route_set :
    (t : Routing) (node mac id : ℕ) (ifc : Option ℕ)
    → length t.routes ≡ default_route + 1
    → node ≤ default_route
    → let r : Route = record { interface = ifc; nexthop_mac_addr = mac } in
      resolved (route_set t node ifc mac) id
      ≡ choice (entry_after t node r id) (entry_after t node r default_route)
route_if-route_set t node mac id ifc len h =
    resolved_lem (route_set t node ifc mac) id
    ∙ ap₂ choice (entry-route_set t node mac id ifc len h)
        (entry-route_set t node mac default_route ifc len h)

abbrev pub occurs : ℕ → List ℕ → ℕ
occurs x [] = 0
occurs x (y ∷ ys) = if x == y then suc (occurs x ys) else occurs x ys

occurs-walk :
    (x i ifc : ℕ) (is : List ℕ)
    → occurs ifc (i ∷ is) ≤ 1
    → occurs x (walk i is ifc) ≡ (if x == ifc then 1 else occurs x (i ∷ is))
unfolding walk
occurs-walk x i ifc [] h = ground arith
occurs-walk x i ifc (j ∷ js) h = ground (arith, occurs-walk x j ifc js)

occurs-add :
    (is : List ℕ) (x ifc : ℕ)
    → occurs ifc is ≤ 1
    → occurs x (add_interface is (some ifc)) ≡ (if x == ifc then 1 else occurs x is)
unfolding add_interface
occurs-add [] x ifc h = refl
occurs-add (i ∷ is) x ifc h = occurs-walk x i ifc is h

-- Setting a route with an interface makes the interface known, once, and no other interface more or less so.
pub occurs-route_set :
    (t : Routing) (node mac x ifc : ℕ)
    → occurs ifc t.interfaces ≤ 1
    → occurs x (route_set t node (some ifc) mac).interfaces
      ≡ (if x == ifc then 1 else occurs x t.interfaces)
unfolding route_set
occurs-route_set t node mac x ifc h = occurs-add t.interfaces x ifc h
