-- ===== src/Kube.antt =====
-- The fields of the Kubernetes objects (k8s.io/api core/v1 and discovery/v1) that the code reads.
-- An optional field is a pointer there; a port number is an `int32`.
use lightpath.Prelude.{String, Bool, Option, List}
use lightpath.Prelude.Dict.{Dict}
use lightpath.Prelude.Int.{ℤ}

pub record ObjectMeta : Type 0 where
  pub name : String
  pub namespace : String
  pub resource_version : String
  pub labels : Dict String String
  pub annotations : Dict String String

-- `intstr.IntOrString`: `int_val` is 0 where a name is given.
pub record IntOrString : Type 0 where
  pub int_val : ℤ
  pub str_val : String

pub record ServicePort : Type 0 where
  pub name : String
  pub protocol : String
  pub app_protocol : Option String
  pub port : ℤ
  pub target_port : IntOrString
  pub node_port : ℤ

pub record ServiceSpec : Type 0 where
  pub ports : List ServicePort
  pub cluster_ips : List String
  pub external_ips : List String
  pub ip_families : List String
  pub service_type : String

pub record Service : Type 0 where
  pub object_meta : ObjectMeta
  pub open object_meta use *
  pub spec : ServiceSpec

pub record EndpointConditions : Type 0 where
  pub ready : Option Bool
  pub serving : Option Bool
  pub terminating : Option Bool

pub record Endpoint : Type 0 where
  pub addresses : List String
  pub conditions : EndpointConditions
  pub node_name : Option String
  pub zone : Option String

pub record EndpointPort : Type 0 where
  pub port_name : Option String
  pub port : Option ℤ

pub record EndpointSlice : Type 0 where
  pub object_meta : ObjectMeta
  pub open object_meta use *
  pub address_type : String
  pub endpoints : List Endpoint
  pub ports : List EndpointPort

-- The value of `discoveryv1.LabelServiceName`.
abbrev pub label_service_name : String
label_service_name = "kubernetes.io/service-name"
