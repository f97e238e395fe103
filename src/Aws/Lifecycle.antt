-- ===== src/Aws/Lifecycle.antt =====
-- internal/aws/rds_auth.go: the client manager is initialized once, and used only then.
use automatic_db_upgrades.Common.{String, true, false, none, some, ◌≡◌, refl, arith}
use automatic_db_upgrades.Kube.Meta.{err}
use automatic_db_upgrades.Kube.Cluster.{Cluster}
use automatic_db_upgrades.Kube.Monad.{State, done}
use automatic_db_upgrades.Aws.Url.{RdsAuthConfig}
use automatic_db_upgrades.Aws.Manager.{ClientManager, initialize, generate_rds_auth_token}

module _ (C : Cluster) where
  initialized-initialize :
      (m m' : ClientManager C) (s s' : State C.World)
      → initialize C m s ≡ (done (none, m'), s')
      → m'.initialized ≡ true
  unfolding initialize
  initialized-initialize m m' s s' h = ground arith

  initialize_of_initialized :
      (m : ClientManager C) (s : State C.World)
      → m.initialized ≡ true
      → initialize C m s ≡ (done (none, m), s)
  unfolding initialize
  initialize_of_initialized m s e = ground arith

  initialize_failed_same :
      (m m' : ClientManager C) (e : String) (s s' : State C.World)
      → initialize C m s ≡ (done (some e, m'), s')
      → (m' ≡ m) × (m'.initialized ≡ false)
  unfolding initialize
  initialize_failed_same m m' e s s' h = ground arith

  -- Once Initialize has succeeded the manager is initialized, and every later call succeeds and
  -- changes nothing: neither the manager nor anything outside.
  pub initialize_once :
      (m m' : ClientManager C) (s s' : State C.World)
      → initialize C m s ≡ (done (none, m'), s')
      → (m'.initialized ≡ true)
        × ((later : State C.World) → initialize C m' later ≡ (done (none, m'), later))
  unfolding initialize
  initialize_once m m' s s' h =
      let e = initialized-initialize m m' s s' h in
      (e, λ later. initialize_of_initialized m' later e)

  -- If Initialize fails the manager is as it was, and it gives no token: it answers with an error, and
  -- calls nothing.
  pub initialize_failed :
      (m m' : ClientManager C) (e : String) (s s' : State C.World)
      → initialize C m s ≡ (done (some e, m'), s')
      → (m' ≡ m)
        × ((cfg : RdsAuthConfig) (later : State C.World)
            → generate_rds_auth_token C m' cfg later
              ≡ (done (err "AWS client manager not initialized - call Initialize() first"), later))
  unfolding initialize generate_rds_auth_token
  initialize_failed m m' e s s' h =
      let (same, e) = initialize_failed_same m m' e s s' h in
      (same, λ cfg later. rw (generate_rds_auth_token, e) refl)
