-- ===== src/Bootstrap/Providers.antt =====
-- bootstrap: which configurations the generator writes.
use grpc_traffic_controller.Prelude.{
  ◌≡◌, ◌≢◌, ◌↔◌, refl, Text, codes, [], ◌⊎◌, inl, inr, true, false, text_eq, text_eq_iff,
  text_eq→eq, to_lower, Bool-cases, arith,
}
use grpc_traffic_controller.Bootstrap.{
  BootstrapError, Environment, BootstrapConfig, config_for, and_then_or, get_node_id, provide_env,
  provide_gcloud, build_config_provider, provide, bootstrapgen, failed, unknown_provider,
  not_running_on_gce,
}

module _ (env : Environment) where
  -- The node id of the environment variable, or the host name if it is empty.
  pub data IsNodeId (id : Text) : Type 0 where
    from_env : id ≢ [] → env.getenv (codes "GTC_NODE_ID") ≡ id → IsNodeId id
    from_host : env.getenv (codes "GTC_NODE_ID") ≡ [] → env.hostname ≡ inr id → IsNodeId id

  -- The zone of a provider's name: that of the environment, or that of the metadata server on GCE.
  pub data IsZone (provider zone : Text) : Type 0 where
    of_env :
        to_lower provider ≡ codes "env"
        → zone ≡ env.getenv (codes "GTC_ZONE")
        → IsZone provider zone
    of_gcloud :
        to_lower provider ≡ codes "gcloud"
        → env.on_gce ≡ true
        → env.zone ≡ inr zone
        → IsZone provider zone

  pub record IsConfigured (provider server_uri : Text) (config : BootstrapConfig) : Type 0 where
    pub id : Text
    pub zone : Text
    pub named : server_uri ≢ []
    pub identified : IsNodeId id
    pub located : IsZone provider zone
    pub made : config ≡ config_for server_uri id zone

  get_node_id_sound : (id : Text) → get_node_id env ≡ inr id → IsNodeId id
  unfolding get_node_id
  get_node_id_sound id e = elim (Bool-cases (text_eq (env.getenv (codes "GTC_NODE_ID")) [])) [
    | inl blank ↦ from_host (text_eq→eq _ [] blank) (rw blank at e)
    | inr set ↦
        let e' : inr (env.getenv (codes "GTC_NODE_ID")) ≡ inr id = rw set at e in
        let same : env.getenv (codes "GTC_NODE_ID") ≡ id = ground arith in
        from_env (λ h. ground (arith, text_eq_iff (env.getenv (codes "GTC_NODE_ID")) [])) same
  ]

  get_node_id_complete : (id : Text) → IsNodeId id → get_node_id env ≡ inr id
  unfolding get_node_id text_eq
  get_node_id_complete id (from_env set e) = ground (arith, text_eq_iff id [])
  get_node_id_complete id (from_host blank e) = rw (blank, e) refl

  -- A chain of two calls that succeeds.
  chain {ℓ} :
      {A B : Type 0} {P : Type ℓ} {b : B} (m : BootstrapError ⊎ A) {f : A → BootstrapError ⊎ B}
      → and_then_or m f ≡ inr b
      → ((a : A) → m ≡ inr a → f a ≡ inr b → P)
      → P
  chain (inl e) h k = absurd (cc)
  chain (inr a) h k = k a refl h

  provide_env_sound :
      (provider server_uri : Text) (config : BootstrapConfig)
      → server_uri ≢ []
      → to_lower provider ≡ codes "env"
      → provide_env env server_uri ≡ inr config
      → IsConfigured provider server_uri config
  unfolding provide_env
  provide_env_sound provider server_uri config named is e = chain (get_node_id env) e λ id found e₁.
      record {
        id = id;
        zone = env.getenv (codes "GTC_ZONE");
        named = named;
        identified = get_node_id_sound id found;
        located = of_env is refl;
        made = ground arith;
      }

  provide_gcloud_sound :
      (provider server_uri : Text) (config : BootstrapConfig)
      → server_uri ≢ []
      → to_lower provider ≡ codes "gcloud"
      → provide_gcloud env server_uri ≡ inr config
      → IsConfigured provider server_uri config
  unfolding provide_gcloud
  provide_gcloud_sound provider server_uri config named is e = elim (Bool-cases env.on_gce) [
    | inr off ↦ absurd (let e' : inl not_running_on_gce ≡ inr config = rw off at e in cc)
    | inl on ↦ chain (get_node_id env) (rw on at e) λ id found e₁.
        chain env.zone e₁ λ zone zoned e₂. record {
          id = id;
          zone = zone;
          named = named;
          identified = get_node_id_sound id found;
          located = of_gcloud is on zoned;
          made = ground arith;
        }
  ]

  bootstrapgen_sound :
      (provider server_uri : Text) (config : BootstrapConfig)
      → bootstrapgen env provider server_uri ≡ inr config
      → IsConfigured provider server_uri config
  unfolding bootstrapgen build_config_provider provide
  bootstrapgen_sound provider server_uri config e = elim (Bool-cases (text_eq server_uri [])) [
    | inl blank ↦ absurd (let e' : inl (failed _) ≡ inr config = rw blank at e in cc)
    | inr set ↦
        let named : server_uri ≢ [] = λ h. ground (arith, text_eq_iff server_uri []) in
        elim (Bool-cases (text_eq (to_lower provider) (codes "env"))) [
          | inl is ↦
              provide_env_sound provider server_uri config named (text_eq→eq _ _ is)
                (rw (set, is) at e)
          | inr isnt ↦ elim (Bool-cases (text_eq (to_lower provider) (codes "gcloud"))) [
            | inl is ↦
                provide_gcloud_sound provider server_uri config named (text_eq→eq _ _ is)
                  (rw (set, isnt, is) at e)
            | inr isnt' ↦ absurd (
                let e' : inl (unknown_provider provider) ≡ inr config =
                  rw (set, isnt, isnt') at e in
                cc)
          ]
        ]
  ]

  bootstrapgen_complete :
      (provider server_uri : Text) (config : BootstrapConfig)
      → IsConfigured provider server_uri config
      → bootstrapgen env provider server_uri ≡ inr config
  unfolding bootstrapgen build_config_provider provide provide_env provide_gcloud text_eq
  bootstrapgen_complete provider server_uri config is =
      let set : text_eq server_uri [] ≡ false = elim (Bool-cases (text_eq server_uri [])) [
        | inl blank ↦ absurd (is.named (text_eq→eq server_uri [] blank))
        | inr e ↦ e
      ] in
      let id = get_node_id_complete is.id is.identified in
      let made = is.made in
      elim is.located [
        | of_env named zoned ↦ rw (set, named, id, made, zoned) refl
        | of_gcloud named on zoned ↦ rw (set, named, on, id, zoned, made) refl
      ]

  -- The generator makes a configuration exactly where a server is named, the provider's name is one of
  -- the two in any case of its letters, there is a node id and, for gcloud, the process runs on GCE and
  -- has a zone; the configuration is the one for that server, node id and zone.
  pub bootstrapgen-eq-inr_iff :
      (provider server_uri : Text) (config : BootstrapConfig)
      → (bootstrapgen env provider server_uri ≡ inr config)
        ↔ IsConfigured provider server_uri config
  bootstrapgen-eq-inr_iff provider server_uri config = (
    bootstrapgen_sound provider server_uri config,
    bootstrapgen_complete provider server_uri config,
  )
