-- ===== src/Routes/Clusters/Weights.antt =====
-- gtc/route.go: the clusters of a route and their total weight.
use grpc_traffic_controller.Prelude.{
  ℕ, zero, suc, ◌+◌, ◌%◌, ◌^◌, ◌<◌, ◌≡◌, refl, pos, Text, List, [], ◌∷◌, some, arith, length,
  get_elem?, ap, add-suc_shift,
}
use native.Mathlib.Nat.{add-zero, zero-add}
use grpc_traffic_controller.Api.{Route, Backend}
use grpc_traffic_controller.Errors.{ok, >>=-eq-ok}
use grpc_traffic_controller.Envoy.{Library, ClusterWeight, WeightedCluster}
use grpc_traffic_controller.Names.{backend_name}
use grpc_traffic_controller.Interceptors.{make_filter_overrides}
use grpc_traffic_controller.Routes.Clusters.{weigh_backends, make_weighted_clusters}

abbrev pub sum_weights : List Backend → ℕ
sum_weights [] = 0
sum_weights (b ∷ bs) = b.weight + sum_weights bs

module _ (lib : Library) (namespace name : Text) (route_id : ℕ) where
  -- The cluster of the backend at an index.
  pub record IsClusterOf (i : ℕ) (b : Backend) (c : ClusterWeight) : Type 0 where
    pub named : c.name ≡ backend_name namespace name (pos route_id) (pos i)
    pub weighed : c.weight ≡ b.weight
    pub overridden : make_filter_overrides lib b.interceptors ≡ ok c.typed_per_filter_config

  weigh-cons :
      (i total : ℕ) (b : Backend) (bs : List Backend) (t : ℕ) (cs : List ClusterWeight)
      → weigh_backends lib namespace name route_id i total (b ∷ bs) ≡ ok (t, cs)
      → (c : ClusterWeight) × (more : List ClusterWeight) × IsClusterOf i b c
        × (weigh_backends lib namespace name route_id (suc i) ((total + b.weight) % 2 ^ 32) bs
            ≡ ok (t, more))
        × (cs ≡ c ∷ more)
  unfolding weigh_backends
  weigh-cons i total b bs t cs e =
      let (overrides, made, rest) = >>=-eq-ok (make_filter_overrides lib b.interceptors) _ e in
      let ((t', more), weighed, same) =
        >>=-eq-ok
          (weigh_backends lib namespace name route_id (suc i) ((total + b.weight) % 2 ^ 32) bs) _
          rest in
      (
        record {
          name = backend_name namespace name (pos route_id) (pos i);
          weight = b.weight;
          typed_per_filter_config = overrides;
        },
        more,
        record { named = refl; weighed = refl; overridden = made },
        let eq : t' ≡ t = ground arith in rw (← eq) weighed,
        ground arith,
      )

  weigh_total :
      (i total : ℕ) (bs : List Backend) (t : ℕ) (cs : List ClusterWeight)
      → total < 2 ^ 32
      → weigh_backends lib namespace name route_id i total bs ≡ ok (t, cs)
      → t ≡ (total + sum_weights bs) % 2 ^ 32
  weigh_total i total [] t cs small e = unfold weigh_backends in ground arith
  weigh_total i total (b ∷ bs) t cs small e =
      let (_, more, _, rest, _) = weigh-cons i total b bs t cs e in
      omega (arith, weigh_total (suc i) ((total + b.weight) % 2 ^ 32) bs t more (omega arith) rest)

  weigh_length :
      (i total : ℕ) (bs : List Backend) (t : ℕ) (cs : List ClusterWeight)
      → weigh_backends lib namespace name route_id i total bs ≡ ok (t, cs)
      → length cs ≡ length bs
  weigh_length i total [] t cs e = unfold weigh_backends in ground arith
  weigh_length i total (b ∷ bs) t cs e =
      let (_, more, _, rest, same) = weigh-cons i total b bs t cs e in
      rw same (ap suc (weigh_length (suc i) _ bs t more rest))

  weigh_at :
      (i total : ℕ) (bs : List Backend) (t : ℕ) (cs : List ClusterWeight)
      → weigh_backends lib namespace name route_id i total bs ≡ ok (t, cs)
      → (j : ℕ) (b : Backend) → get_elem? bs j ≡ some b
      → (c : ClusterWeight) × (get_elem? cs j ≡ some c) × IsClusterOf (i + j) b c
  weigh_at i total [] t cs e j b at = cc
  weigh_at i total (b' ∷ bs) t cs e zero b at =
      let (c, more, is, rest, same) = weigh-cons i total b' bs t cs e in
      let first : b' ≡ b = cc in (c, rw same, rw (add-zero, ← first) is)
  weigh_at i total (b' ∷ bs) t cs e (suc j) b at =
      let (_, more, _, rest, same) = weigh-cons i total b' bs t cs e in
      let (c, found, is) = weigh_at (suc i) _ bs t more rest j b at in
      (c, rw same found, rw (← add-suc_shift i j) is)

  weighted-backends :
      (spec : Route) (wc : WeightedCluster)
      → make_weighted_clusters lib namespace name route_id spec ≡ ok wc
      → weigh_backends lib namespace name route_id 0 0 spec.backends
        ≡ ok (wc.total_weight, wc.clusters)
  unfolding make_weighted_clusters
  weighted-backends spec wc e =
      let ((t, cs), weighed, same) =
        >>=-eq-ok (weigh_backends lib namespace name route_id 0 0 spec.backends) _ e in
      let eq : ◌≡◌ {A = ℕ × List ClusterWeight} (t, cs) (wc.total_weight, wc.clusters) =
        ground arith in
      rw (← eq) weighed

  -- The total weight of clusters that are made is the sum of the backends' weights modulo 2^32.
  pub total_weight-eq-sum :
      (spec : Route) (wc : WeightedCluster)
      → make_weighted_clusters lib namespace name route_id spec ≡ ok wc
      → wc.total_weight ≡ sum_weights spec.backends % 2 ^ 32
  total_weight-eq-sum spec wc e = omega (
    arith,
    weigh_total 0 0 spec.backends wc.total_weight wc.clusters (omega arith)
        (weighted-backends spec wc e),
  )

  -- A route whose clusters are made has one for each backend, in order: it has the name that the listener, the
  -- route's index and the backend's index make, the backend's weight and its overrides.
  pub make_weighted_clusters_lem :
      (spec : Route) (wc : WeightedCluster)
      → make_weighted_clusters lib namespace name route_id spec ≡ ok wc
      → (length wc.clusters ≡ length spec.backends)
        × ((j : ℕ) (b : Backend)
            → get_elem? spec.backends j ≡ some b
            → (c : ClusterWeight) × (get_elem? wc.clusters j ≡ some c) × IsClusterOf j b c)
  make_weighted_clusters_lem spec wc e =
      let weighed = weighted-backends spec wc e in
      (
        weigh_length 0 0 spec.backends wc.total_weight wc.clusters weighed,
        λ j b at.
            let (c, found, is) =
              weigh_at 0 0 spec.backends wc.total_weight wc.clusters weighed j b at in
            (c, found, rw zero-add at is),
      )
