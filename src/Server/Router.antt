-- ===== src/Server/Router.antt =====
-- src/server.rs: `create_router`. A route is its path, its handler's name and its layers from the
-- outermost in; `route_layer` puts a layer around the routes that are there already.
pub mod Laws
use Prim.Native.String.{String}
use executor_node.Prelude.{
  ℕ, ◌*◌, Bool, true, false, Option, none, some, List, [], ◌∷◌, ◌++◌, map, if◌then◌else◌,
}
use executor_node.Clock.{from_secs}
use executor_node.Paired.Sessions.{open_body_bytes, commit_body_bytes, session_body_bytes}
use executor_node.Server.Timing.{BodyPolicy, limit}
use executor_node.Server.Layers.{
  Layer, body_limit, default_body_limit, body_timeout, min_duration, per_ip_rate_limit, auth,
  session_gate, rate_limit, attest_rate_limit, cors, trace,
}

abbrev pub max_request_body_bytes : ℕ
max_request_body_bytes = 1048576

abbrev pub study_request_body_bytes : ℕ
study_request_body_bytes = 4 * 1024

abbrev pub session_body_read_deadline : ℕ
session_body_read_deadline = from_secs 20

abbrev pub request_body_read_timeout : ℕ
request_body_read_timeout = from_secs 30

pub record Route : Type 0 where
  pub path : String
  pub layers : List Layer

abbrev pub Routes : Type 0
Routes = List Route

abbrev pub route : String → Routes
route path = record { path = path; layers = [] } ∷ []

abbrev wrap : Layer → Route → Route
wrap layer r = record r { layers = layer ∷ r.layers }

unfoldable pub route_layer : Layer → Routes → Routes
route_layer layer routes = map (wrap layer) routes

unfoldable pub verify_group : Routes → ℕ → Routes
unfolding route_layer
verify_group routes most =
    route_layer (body_limit most)
      (route_layer (default_body_limit most) (route_layer per_ip_rate_limit routes))

abbrev attest_route : Routes
attest_route = route_layer attest_rate_limit (route "/attest")

abbrev unless : Bool → Routes → Routes
unless skipped routes = if skipped then [] else routes

abbrev timed_routes : Bool → Routes
timed_routes validation_only =
    verify_group
      (route_layer auth (
        route_layer (min_duration (limit max_request_body_bytes)) (
          route_layer rate_limit
            (unless validation_only (route "/verify") ++ route "/validate-features"))))
      max_request_body_bytes

abbrev session_routes : Routes
session_routes =
    verify_group
      (route_layer auth (
        route_layer session_gate (
          route_layer
            (min_duration (record {
              max_bytes = session_body_bytes;
              read_deadline = some session_body_read_deadline;
            }))
            (route_layer rate_limit (route "/validate-session")))))
      session_body_bytes

abbrev study_routes : Routes
study_routes =
    route_layer (body_limit study_request_body_bytes)
      (route_layer auth (route "/study/definition" ++ route "/study/enrol"))

abbrev untimed_routes : Bool → Routes
untimed_routes validation_only =
    verify_group
      (route_layer auth (
        route_layer rate_limit (
          route "/challenge"
          ++ route "/validation-deployment"
          ++ unless validation_only attest_route)))
      max_request_body_bytes

abbrev paired : String → ℕ → Routes
paired path most = verify_group (route_layer auth (route_layer rate_limit (route path))) most

abbrev paired_round_routes : Routes
paired_round_routes =
    paired "/challenge/paired" open_body_bytes
    ++ paired "/paired/commit" commit_body_bytes
    ++ paired "/paired/cue" commit_body_bytes

abbrev public_routes : Routes
public_routes = route "/health" ++ route "/status" ++ route "/metrics"

abbrev pub transport_limit : Bool → ℕ
transport_limit paired_enabled =
    if paired_enabled then session_body_bytes else max_request_body_bytes

abbrev verify_routes : Bool → Bool → Routes
verify_routes validation_only paired_enabled =
    timed_routes validation_only
    ++ (if paired_enabled then session_routes else [])
    ++ untimed_routes validation_only
    ++ (if paired_enabled then paired_round_routes else [])
    ++ unless validation_only study_routes

-- The layers that go around everything.
abbrev outer : Bool → Routes → Routes
outer paired_enabled routes = route_layer trace (
    route_layer cors (
      route_layer (body_limit (transport_limit paired_enabled)) (
        route_layer (body_timeout request_body_read_timeout)
          (route_layer (default_body_limit (transport_limit paired_enabled)) routes))))

unfoldable pub create_router : Bool → Bool → Routes
unfolding verify_group route_layer
create_router validation_only paired_enabled =
    outer paired_enabled (public_routes ++ verify_routes validation_only paired_enabled)
