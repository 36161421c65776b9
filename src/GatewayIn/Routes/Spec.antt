-- ===== src/GatewayIn/Routes/Spec.antt =====
-- The two tables of route classes, and the check of routes, against each other.
use marketmesh.Prelude.{◌≡◌, refl, ◌↔◌, false}
use marketmesh.Protocol.Enums.{RouteId}
use marketmesh.Protocol.Hello.{bad_route, bad_traffic_class}
use marketmesh.Protocol.Routes
use marketmesh.GatewayIn.Routes.{route_traffic_class}

-- gateway-in and the protocol put every route, declared or not, in the same class.
pub route_traffic_class_agrees :
    (r : RouteId) → route_traffic_class r ≡ Routes.route_traffic_class r
unfolding route_traffic_class Routes.route_traffic_class
route_traffic_class_agrees RouteId.unspecified = refl
route_traffic_class_agrees _ = refl

-- A route passes the check of routes exactly when its class passes the check of classes: the table
-- gives a class that a frame may carry to the declared routes, and to no other value.
pub route_traffic_class-classifies :
    (r : RouteId) → (bad_route r ≡ false) ↔ (bad_traffic_class (route_traffic_class r) ≡ false)
unfolding route_traffic_class bad_route bad_traffic_class
route_traffic_class-classifies RouteId.unspecified = (λ h. cc, λ h. cc)
route_traffic_class-classifies (RouteId.unrecognized n) = (λ h. cc, λ h. cc)
route_traffic_class-classifies _ = (λ h. refl, λ h. refl)
