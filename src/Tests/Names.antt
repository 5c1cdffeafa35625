-- ===== src/Tests/Names.antt =====
-- The names of resources, at the listener default/echo.
use grpc_traffic_controller.Prelude.{
  ℕ, ℤ, pos, negsuc, zero, suc, ◌≡◌, ◌↔◌, ◌≢◌, refl, Text, codes, List, [], ◌∷◌, Lacks, All, arith,
}
use grpc_traffic_controller.Go.Path.{IsPlain}
use grpc_traffic_controller.Errors.{ok}
use grpc_traffic_controller.Names.{
  backend_name, parse_backend_name, listener_name, parse_listener_name,
}
use grpc_traffic_controller.Names.RoundTrip.{
  parse_backend_name-backend_name, parse_listener_name-listener_name,
}
use grpc_traffic_controller.Names.Accepted.{IsBackendName, parse_backend_name_iff}

pub default-IsPlain : IsPlain (codes "default")
default-IsPlain = record {
  nonempty = λ e. ground arith;
  not_dot = λ e. ground arith;
  not_dots = λ e. ground arith;
  one_part = ground arith;
}

pub echo-IsPlain : IsPlain (codes "echo")
echo-IsPlain = record {
  nonempty = λ e. ground arith;
  not_dot = λ e. ground arith;
  not_dots = λ e. ground arith;
  one_part = ground arith;
}

parse_backend_name-backend_name_example :
    parse_backend_name (backend_name (codes "default") (codes "echo") (pos 0) (pos 1))
    ≡ ok (record {
      namespace = codes "default";
      listener_name = codes "echo";
      route_id = pos 0;
      backend_id = pos 1;
    })
parse_backend_name-backend_name_example =
    parse_backend_name-backend_name (codes "default") (codes "echo") 0 1 default-IsPlain
      echo-IsPlain (omega arith) (omega arith)

parse_listener_name-listener_name_example :
    parse_listener_name (listener_name (codes "default") (codes "echo"))
    ≡ ok (codes "default", codes "echo")
parse_listener_name-listener_name_example =
    parse_listener_name-listener_name (codes "default") (codes "echo") default-IsPlain.one_part

read_name : parse_listener_name (codes "default/echo/x") ≡ ok (codes "default", codes "echo/x")
unfolding parse_listener_name grpc_traffic_controller.Prelude.cut
read_name = refl

parse_backend_name_iff_example :
    (parse_backend_name (codes "default/echo/x/+0/y/-1")
      ≡ ok (record {
        namespace = codes "default";
        listener_name = codes "echo";
        route_id = pos 0;
        backend_id = negsuc 0;
      }))
    ↔ IsBackendName (codes "default/echo/x/+0/y/-1") (record {
      namespace = codes "default";
      listener_name = codes "echo";
      route_id = pos 0;
      backend_id = negsuc 0;
    })
parse_backend_name_iff_example = parse_backend_name_iff (codes "default/echo/x/+0/y/-1") _
