-- ===== src/Controller/Given.antt =====
-- controllers/dbupgrade_controller.go, ensureMigrationSecret: with a server that has the customer's
-- Secret and refuses nothing, it gives the operator's Secret with the URL.
use automatic_db_upgrades.Common.{
  String, true, Option, none, some, List, ◌≡◌, ◌≢◌, ◌⊎◌, inl, inr, refl, Bytes, Bool-cases,
  Option-cases,
}
use automatic_db_upgrades.Kube.Objects.{Secret, SecretKeySelector}
use automatic_db_upgrades.Kube.Meta.{Result, ok, err, ApiError, is_not_found}
use automatic_db_upgrades.Kube.Cluster.{Cluster}
use automatic_db_upgrades.Kube.Monad.{State, Outcome, done}
use automatic_db_upgrades.Api.Types.{DbUpgrade, self_hosted}
use automatic_db_upgrades.Aws.Manager.{ClientManager}
use automatic_db_upgrades.Controller.Secrets.{
  insert, secret_name, url_secret_ref, needs_update, write_url, refresh, create, write_secret,
  store_url, operator_secret, entry, bytes_or_nil, connection_url, ensure_migration_secret,
}
use automatic_db_upgrades.Controller.StoredUrl.{IsSupplied, store_url-IsSupplied}

-- A server that has the customer's Secret, and of the operator's Secret either has one with data or says
-- that it has none. It accepts the operator's Secret where it has none, and new contents of the one
-- that it has.
pub record GivesSecrets (C : Cluster) (u : DbUpgrade) (name : String) (customer : Secret)
    : Type 0 where
  pub found : (w : C.World) → (C.get_secret u.namespace name w).0 ≡ ok customer
  pub own :
      (w : C.World)
      → ((before : Secret) × ((C.get_secret u.namespace (secret_name u.name) w).0 ≡ ok before)
          × (before.contents ≢ none))
        ⊎ ((e : ApiError) × ((C.get_secret u.namespace (secret_name u.name) w).0 ≡ err e)
            × (is_not_found e ≡ true))
  pub creates :
      (s : Secret) (e : ApiError) (w : C.World)
      → (C.get_secret u.namespace (secret_name u.name) w).0 ≡ err e
      → is_not_found e ≡ true
      → (s.name ≡ secret_name u.name) × (s.namespace ≡ u.namespace)
      → (answer : Secret) × ((C.create_secret s
            (C.get_secret u.namespace (secret_name u.name) w).1).0
          ≡ ok answer)
  pub updates :
      (before s : Secret) (w : C.World)
      → (C.get_secret u.namespace (secret_name u.name) w).0 ≡ ok before
      → s ≡ record before { contents = s.contents }
      → (answer : Secret) × ((C.update_secret s
            (C.get_secret u.namespace (secret_name u.name) w).1).0
          ≡ ok answer)

module _ (C : Cluster) (u : DbUpgrade) where
  -- A step that gives a Secret, which holds the URL: it was there, or it has been sent.
  abbrev pub Supplies :
      Bytes → State C.World → Outcome (Result String Secret) × State C.World → Type 0
  Supplies url s o =
      (secret : Secret) × (read : State C.World) × (o.0 ≡ done (ok secret))
      × (read.trace ≡ s.trace)
      × IsSupplied C u url read secret o.1.trace

  module _ (name : String) (customer : Secret) (gives : GivesSecrets C u name customer)
      (url : Bytes) where
    abbrev searched : State C.World → State C.World
    searched s = record s { world = (C.get_secret u.namespace (secret_name u.name) s.world).1 }

    abbrev Gives : Outcome (Result String Secret) × State C.World → Type 0
    Gives o = (secret : Secret) × (o.0 ≡ done (ok secret))

    write_url-Gives :
        (s : State C.World) (before : Secret) (m : List (String × Bytes))
        → (C.get_secret u.namespace (secret_name u.name) s.world).0 ≡ ok before
        → Gives (write_url C url before (some m) (searched s))
    unfolding write_url
    write_url-Gives s before m got =
        let (answer, e) =
          gives.updates before (record before { contents = some (insert "url" url m) }) s.world got
            refl in
        rw e (answer, refl)

    refresh-Gives :
        (s : State C.World) (before : Secret)
        → (C.get_secret u.namespace (secret_name u.name) s.world).0 ≡ ok before
        → before.contents ≢ none
        → Gives (refresh C u url before (searched s))
    unfolding refresh write_url
    refresh-Gives s before got full = elim (Bool-cases (needs_update C u url before)) [
      | inl e ↦ elim (Option-cases before.contents) [
        | inl nil ↦ absurd (full nil)
        | inr (m, there) ↦ rw (refresh, e) (rw there (write_url-Gives s before m got))
      ]
      | inr e ↦ rw (refresh, e) (before, refl)
    ]

    create-Gives :
        (s : State C.World) (e : ApiError)
        → (C.get_secret u.namespace (secret_name u.name) s.world).0 ≡ err e
        → is_not_found e ≡ true
        → Gives (create C u url (searched s))
    unfolding create
    create-Gives s e got absent =
        let (answer, accepted) =
          gives.creates (operator_secret C u url) e s.world got absent (refl, refl) in
        rw accepted (answer, refl)

    store_url-Gives : (s : State C.World) → Gives (store_url C u url s)
    unfolding store_url write_secret
    store_url-Gives s = elim (gives.own s.world) [
      | inl (before, got, full) ↦ rw (store_url, got) (refresh-Gives s before got full)
      | inr (e, got, absent) ↦
          rw (store_url, got) (rw (write_secret, absent) (create-Gives s e got absent))
    ]

    store_url-Supplies : (s : State C.World) → Supplies url s (store_url C u url s)
    store_url-Supplies s =
        let (secret, e) = store_url-Gives s in
        (secret, s, e, refl, store_url-IsSupplied C u url s secret e)

  pub ensure_migration_secret-Supplies :
      (manager : Option (ClientManager C)) (customer : Secret) (ref : SecretKeySelector)
      → GivesSecrets C u ref.name customer
      → u.spec.database.kind ≡ self_hosted
      → url_secret_ref u ≡ some ref
      → (s : State C.World)
      → Supplies (bytes_or_nil (entry ref.key customer)) s (ensure_migration_secret C manager u s)
  unfolding ensure_migration_secret connection_url
  ensure_migration_secret-Supplies manager customer ref gives kind given s =
      rw (kind, given)
        (rw (gives.found s.world)
          (store_url-Supplies ref.name customer gives (bytes_or_nil (entry ref.key customer)) _))
