-- ===== src/State/Snapshot.antt =====
-- pkg/state/snapshot/snapshot.go
use lightpath.Prelude.{List}
use lightpath.Kube

pub record Service : Type 0 where
  pub obj : Kube.Service
  pub endpoint_slices : List Kube.EndpointSlice

pub record Snapshot : Type 0 where
  pub services : List Service
