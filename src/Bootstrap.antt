-- ===== src/Bootstrap.antt =====
-- bootstrap: the configuration that a client of the control plane starts from. The environment and the
-- metadata server are parameters.
pub mod Providers
use grpc_traffic_controller.Prelude.{
  Text, codes, List, [], ◌∷◌, ◌⊎◌, inl, inr, Bool, if◌then◌else◌, text_eq, to_lower,
}

pub data BootstrapError : Type 0 where
  unknown_provider : Text → BootstrapError
  not_running_on_gce : BootstrapError
  failed : Text → BootstrapError

-- os.Getenv, os.Hostname, metadata.OnGCE and metadata.Zone
pub record Environment : Type 0 where
  pub getenv : Text → Text
  pub hostname : BootstrapError ⊎ Text
  pub on_gce : Bool
  pub zone : BootstrapError ⊎ Text

pub record Cred : Type 0 where
  pub type_name : Text

pub record Locality : Type 0 where
  pub zone : Text

pub record Node : Type 0 where
  pub id : Text
  pub locality : Locality

pub record XdsServer : Type 0 where
  pub uri : Text
  pub features : List Text
  pub creds : List Cred

pub record BootstrapConfig : Type 0 where
  pub xds_servers : List XdsServer
  pub node : Node

abbrev pub and_then_or {ℓ} :
    {A B : Type ℓ} → BootstrapError ⊎ A → (A → BootstrapError ⊎ B) → BootstrapError ⊎ B
and_then_or (inl e) f = inl e
and_then_or (inr a) f = f a

-- the configuration that both providers make
abbrev pub config_for : (server_uri node_id zone : Text) → BootstrapConfig
config_for server_uri node_id zone = record {
  xds_servers =
      record {
        uri = server_uri;
        features = codes "xds_v3" ∷ [];
        creds = record { type_name = codes "insecure" } ∷ [];
      }
      ∷ [];
  node = record { id = node_id; locality = record { zone = zone } };
}

module _ (env : Environment) where
  unfoldable pub get_node_id : BootstrapError ⊎ Text
  get_node_id =
      let node_id = env.getenv (codes "GTC_NODE_ID") in
      if text_eq node_id [] then env.hostname else inr node_id

  -- envProvider.Provide
  unfoldable pub provide_env : (server_uri : Text) → BootstrapError ⊎ BootstrapConfig
  unfolding get_node_id
  provide_env server_uri =
      and_then_or get_node_id
        λ node_id. inr (config_for server_uri node_id (env.getenv (codes "GTC_ZONE")))

  -- gcloudProvider.Provide
  unfoldable pub provide_gcloud : (server_uri : Text) → BootstrapError ⊎ BootstrapConfig
  unfolding get_node_id
  provide_gcloud server_uri =
      if env.on_gce
      then and_then_or get_node_id
          (λ node_id. and_then_or env.zone λ zone. inr (config_for server_uri node_id zone))
      else inl not_running_on_gce

-- A ConfigProvider.
pub data ConfigProvider : Type 0 where
  env_provider : ConfigProvider
  gcloud_provider : ConfigProvider

unfoldable pub build_config_provider : (provider_type : Text) → BootstrapError ⊎ ConfigProvider
build_config_provider provider_type =
    if text_eq (to_lower provider_type) (codes "env")
    then inr env_provider
    else if text_eq (to_lower provider_type) (codes "gcloud")
    then inr gcloud_provider
    else inl (unknown_provider provider_type)

-- Provide, by the provider
unfoldable pub provide :
    Environment → ConfigProvider → (server_uri : Text) → BootstrapError ⊎ BootstrapConfig
unfolding provide_env provide_gcloud
provide env env_provider server_uri = provide_env env server_uri
provide env gcloud_provider server_uri = provide_gcloud env server_uri

-- main of cmd/bootstrapgen, up to the file that it writes
unfoldable pub bootstrapgen :
    Environment → (provider server_uri : Text) → BootstrapError ⊎ BootstrapConfig
unfolding build_config_provider provide
bootstrapgen env provider server_uri =
    if text_eq server_uri []
    then inl (failed (codes "please provide a server-uri"))
    else and_then_or (build_config_provider provider) λ p. provide env p server_uri
