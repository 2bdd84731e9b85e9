-- ===== src/Coordinator/Methods.antt =====
-- Which requests to the coordinator (cmd/warmup-coordinator/main.go) leave what as it is.
use itmo_master_research.Base.{◌⊎◌, inl, inr, String, ◌==◌, ◌≡◌, refl, true, false, List, arith}
use itmo_master_research.Base.Mux.{
  OfRoute, find_route-takes, RouteMatch, handled, method_not_allowed, not_found, takes_method,
  find_route,
}
use itmo_master_research.Base.Float.{Float64}
use itmo_master_research.Warmkit.Types.{MirrorConfig, InstanceRecord}
use itmo_master_research.Coordinator.{Coordinator, delete_session}
use itmo_master_research.Coordinator.Main.{
  CoordinatorRequest, CoordinatorRoute, healthz_route, create_route, get_route, complete_route,
  delete_route, config_route, coordinator_routes, handle_route, dispatch_route, serve_coordinator,
}
use itmo_master_research.Zk.{Zk, Codec}

-- What a request of this method may reach.
abbrev IsAllowed : String → CoordinatorRoute → Type 0
IsAllowed method create_route = ("POST" == method) ≡ true
IsAllowed method complete_route = ("POST" == method) ≡ true
IsAllowed method config_route = ("PUT" == method) ≡ true
IsAllowed method delete_route = ("DELETE" == method) ≡ true
IsAllowed method _ = Unit

-- Only a pattern for GET takes a method other than its own.
takes_method-own :
    (wanted method : String)
    → (wanted == "GET") ≡ false
    → takes_method wanted method ≡ true
    → (wanted == method) ≡ true
unfolding takes_method
takes_method-own wanted method h k = ground (arith, h, k)

find_route-IsAllowed :
    (method : String) (path : List String)
    → OfRoute (IsAllowed method) (find_route coordinator_routes method path)
unfolding coordinator_routes
find_route-IsAllowed method path =
    let free : takes_method "GET" method ≡ true → Unit {0} = λ _. tt in
    let posted = takes_method-own "POST" method refl in
    find_route-takes (IsAllowed method) coordinator_routes method path (
      free,
      (
        posted,
        (
          free,
          (
            posted,
            (takes_method-own "DELETE" method refl, (takes_method-own "PUT" method refl, tt)),
          ),
        ),
      ),
    )

-- What is left where the method is neither POST nor PUT.
abbrev Quiet : {S F : Type 0} → Coordinator S F → String → Coordinator S F → Type 0
Quiet c method c' = (c'.conn ≡ c.conn) × ((("DELETE" == method) ≡ true) ⊎ (c' ≡ c))

module _ {S B F : Type 0} (zk : Zk S B) (float : Float64 F) (configs : Codec (MirrorConfig F) B)
    (records : Codec InstanceRecord B) {E : Type 0} where
  dispatch_route-Quiet :
      (c : Coordinator S F) (r : CoordinatorRequest E F) (found : RouteMatch CoordinatorRoute)
      → ("POST" == r.method) ≡ false
      → ("PUT" == r.method) ≡ false
      → OfRoute (IsAllowed r.method) found
      → Quiet c r.method (dispatch_route zk float configs records c r found).0
  unfolding dispatch_route handle_route delete_session
  dispatch_route-Quiet c r (handled healthz_route values) post put allowed = (refl, inr refl)
  dispatch_route-Quiet c r (handled get_route values) post put allowed = (refl, inr refl)
  dispatch_route-Quiet c r (handled create_route values) post put allowed =
      absurd (ground (arith, post, allowed))
  dispatch_route-Quiet c r (handled complete_route values) post put allowed =
      absurd (ground (arith, post, allowed))
  dispatch_route-Quiet c r (handled config_route values) post put allowed =
      absurd (ground (arith, put, allowed))
  dispatch_route-Quiet c r (handled delete_route values) post put allowed = (refl, inl allowed)
  dispatch_route-Quiet c r method_not_allowed post put allowed = (refl, inr refl)
  dispatch_route-Quiet c r not_found post put allowed = (refl, inr refl)

  -- A request of a method other than POST and PUT, to any path, does not write to ZooKeeper, so it
  -- changes neither the mirror nor the instance that is active; and if it is no DELETE either, it
  -- leaves the sessions as they are too.
  pub serve_coordinator-reads :
      (c : Coordinator S F) (r : CoordinatorRequest E F)
      → ("POST" == r.method) ≡ false
      → ("PUT" == r.method) ≡ false
      → let (c', answer) = serve_coordinator zk float configs records c r in
        (c'.conn ≡ c.conn) × ((("DELETE" == r.method) ≡ true) ⊎ (c' ≡ c))
  unfolding serve_coordinator
  serve_coordinator-reads c r post put =
      dispatch_route-Quiet c r (find_route coordinator_routes r.method r.path) post put
        (find_route-IsAllowed r.method r.path)
