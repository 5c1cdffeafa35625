-- ===== src/Tests/Bootstrap.antt =====
-- The generator on a machine in a zone.
use grpc_traffic_controller.Prelude.{
  ◌≡◌, ◌↔◌, refl, Text, codes, List, [], ◌∷◌, inr, true, if◌then◌else◌, text_eq,
}
use grpc_traffic_controller.Bootstrap.{Environment, config_for, bootstrapgen}
use grpc_traffic_controller.Bootstrap.Providers.{IsConfigured, bootstrapgen-eq-inr_iff}

abbrev machine : Environment
machine = record {
  getenv = λ key. if text_eq key (codes "GTC_ZONE") then codes "a" else [];
  hostname = inr (codes "host");
  on_gce = true;
  zone = inr (codes "b");
}

generates :
    bootstrapgen machine (codes "GCloud") (codes "xds:1")
    ≡ inr (config_for (codes "xds:1") (codes "host") (codes "b"))
unfolding bootstrapgen text_eq grpc_traffic_controller.Prelude.to_lower
generates = refl

bootstrapgen-eq-inr_iff_example :
    (bootstrapgen machine (codes "GCloud") (codes "xds:1")
      ≡ inr (config_for (codes "xds:1") (codes "host") (codes "b")))
    ↔ IsConfigured machine
        (codes "GCloud")
        (codes "xds:1")
        (config_for (codes "xds:1") (codes "host") (codes "b"))
bootstrapgen-eq-inr_iff_example =
    bootstrapgen-eq-inr_iff machine (codes "GCloud") (codes "xds:1")
      (config_for (codes "xds:1") (codes "host") (codes "b"))
