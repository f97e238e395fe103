-- ===== src/Kube.antt =====
-- The Kubernetes side of the operator: the fields of its objects that the code reads or writes,
-- and the cluster as an interface. None of it is code of the repository.
pub mod Objects
pub mod Meta
pub mod Calm
pub mod Cluster
pub mod Monad
pub mod Writes
