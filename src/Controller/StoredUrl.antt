-- ===== src/Controller/StoredUrl.antt =====
-- The connection URL in the operator's Secret.
use automatic_db_upgrades.Common.{
  String, true, false, Option, none, some, List, [], ◌∷◌, ◌≡◌, ◌≢◌, ◌⊎◌, inl, inr, refl, arith,
  Bytes, ◌==◌, ==_refl, if◌then◌else◌, Bool-cases,
}
use automatic_db_upgrades.Kube.Objects.{Secret}
use automatic_db_upgrades.Kube.Meta.{Result, ok, err, ApiError, is_not_found}
use automatic_db_upgrades.Kube.Cluster.{Cluster}
use automatic_db_upgrades.Kube.Monad.{State, done, panic, Write, updated_secret, created_secret}
use automatic_db_upgrades.Api.Types.{DbUpgrade}
use automatic_db_upgrades.Controller.Secrets.{
  is_self_hosted, secret_name, lookup, insert, entry, bytes_or_nil, write_url, needs_update,
  refresh, create, write_secret, store_url, operator_secret,
}

-- The law of the map in a Secret.
pub lookup-insert :
    (key j : String) (v : Bytes) (m : List (String × Bytes))
    → lookup j (insert key v m) ≡ (if key == j then some v else lookup j m)
unfolding lookup insert
lookup-insert key j v [] = refl
lookup-insert key j v ((k, w) ∷ m) = ground (arith, lookup-insert key j v m)

lookup-insert_self :
    (key : String) (v : Bytes) (m : List (String × Bytes)) → lookup key (insert key v m) ≡ some v
lookup-insert_self key v m = rw (lookup-insert key key v m, ==_refl key)

module _ (C : Cluster) (u : DbUpgrade) (url : Bytes) where
  -- How a run of the step from `s` to the trace `end` came by the Secret that it gives: the server has
  -- it with the URL in it, and nothing is written; or the server has another state of it, which is
  -- sent with the URL in it, or has none, and one with the URL is sent, and the Secret is what the
  -- server answers.
  abbrev pub IsSupplied : State C.World → Secret → List Write → Type 0
  IsSupplied s secret end =
      let name = secret_name u.name in
      let (got, w) = C.get_secret u.namespace name s.world in
      ((got ≡ ok secret) × (bytes_or_nil (entry "url" secret) ≡ url) × (end ≡ s.trace))
      ⊎ ((before : Secret) × (sent : Secret) × (got ≡ ok before)
          × (sent ≡ record before { contents = sent.contents })
          × (entry "url" sent ≡ some url)
          × (end ≡ updated_secret sent ∷ s.trace)
          × ((C.update_secret sent w).0 ≡ ok secret))
      ⊎ ((e : ApiError) × (sent : Secret) × (got ≡ err e)
          × (is_not_found e ≡ true)
          × ((sent.name ≡ name) × (sent.namespace ≡ u.namespace))
          × (entry "url" sent ≡ some url)
          × (end ≡ created_secret sent ∷ s.trace)
          × ((C.create_secret sent w).0 ≡ ok secret))

  up_to_date :
      (secret : Secret)
      → needs_update C u url secret ≡ false
      → bytes_or_nil (entry "url" secret) ≡ url
  unfolding needs_update
  up_to_date secret e = ground arith

  -- The world behind the search for the operator's Secret.
  abbrev searched : State C.World → State C.World
  searched s = record s { world = (C.get_secret u.namespace (secret_name u.name) s.world).1 }

  write_url-IsSupplied :
      (s : State C.World) (before secret : Secret) (contents : Option (List (String × Bytes)))
      → (C.get_secret u.namespace (secret_name u.name) s.world).0 ≡ ok before
      → (write_url C url before contents (searched s)).0 ≡ done (ok secret)
      → IsSupplied s secret (write_url C url before contents (searched s)).1.trace
  unfolding write_url
  write_url-IsSupplied s before secret none got h = cc h
  write_url-IsSupplied s before secret (some m) got h = inr (
      inl (
        before,
        record before { contents = some (insert "url" url m) },
        got,
        refl,
        lookup-insert_self "url" url m,
        refl,
        ground arith,
      ))

  refresh-IsSupplied :
      (s : State C.World) (before secret : Secret)
      → (C.get_secret u.namespace (secret_name u.name) s.world).0 ≡ ok before
      → (refresh C u url before (searched s)).0 ≡ done (ok secret)
      → IsSupplied s secret (refresh C u url before (searched s)).1.trace
  unfolding refresh
  refresh-IsSupplied s before secret got h = elim (Bool-cases (needs_update C u url before)) [
    | inl needed ↦
        rw (refresh, needed)
          (write_url-IsSupplied s before secret before.contents got (rw (refresh, needed) at h))
    | inr fresh ↦
        let same_one : before ≡ secret = ground arith in
        rw (refresh, fresh) (inl (rw (← same_one) (got, up_to_date before fresh, refl)))
  ]

  create-IsSupplied :
      (s : State C.World) (e : ApiError) (secret : Secret)
      → (C.get_secret u.namespace (secret_name u.name) s.world).0 ≡ err e
      → is_not_found e ≡ true
      → (create C u url (searched s)).0 ≡ done (ok secret)
      → IsSupplied s secret (create C u url (searched s)).1.trace
  unfolding create lookup
  create-IsSupplied s e secret got absent h = inr (
      inr (
        e,
        operator_secret C u url,
        got,
        absent,
        (refl, refl),
        rw (==_refl "url") refl,
        refl,
        ground arith,
      ))

  write_secret-IsSupplied :
      (s : State C.World) (got : Result ApiError Secret) (secret : Secret)
      → (C.get_secret u.namespace (secret_name u.name) s.world).0 ≡ got
      → (write_secret C u url got (searched s)).0 ≡ done (ok secret)
      → IsSupplied s secret (write_secret C u url got (searched s)).1.trace
  unfolding write_secret
  write_secret-IsSupplied s (ok before) secret got h = refresh-IsSupplied s before secret got h
  write_secret-IsSupplied s (err e) secret got h = elim (Bool-cases (is_not_found e)) [
    | inl absent ↦
        rw (write_secret, absent)
          (create-IsSupplied s e secret got absent (rw (write_secret, absent) at h))
    | inr other ↦ cc (rw (write_secret, other) at h)
  ]

  -- If the step that stores the URL succeeds, then the Secret that it returns was found with that URL in
  -- it and nothing was written; or the Secret that was found was sent to the server with the URL in
  -- it, or none was found and one of the operator's name was sent with the URL, and the Secret that is
  -- returned is the server's answer to that.
  pub store_url-IsSupplied :
      (s : State C.World) (secret : Secret)
      → (store_url C u url s).0 ≡ done (ok secret)
      → IsSupplied s secret (store_url C u url s).1.trace
  unfolding store_url
  store_url-IsSupplied s secret h = write_secret-IsSupplied s _ secret refl h

  must_update :
      (secret : Secret)
      → secret.contents ≡ none
      → (is_self_hosted u.spec.database.kind ≡ false) ⊎ (url ≢ [])
      → needs_update C u url secret ≡ true
  unfolding needs_update
  must_update secret nil needed = ground arith

  -- If the operator's Secret is there with no data at all, and the URL has to be written (the database
  -- is not self-hosted, or the URL is not empty), then the code panics.
  pub store_url_panics :
      (s : State C.World) (secret : Secret)
      → (C.get_secret u.namespace (secret_name u.name) s.world).0 ≡ ok secret
      → secret.contents ≡ none
      → (is_self_hosted u.spec.database.kind ≡ false) ⊎ (url ≢ [])
      → (store_url C u url s).0 ≡ panic
  unfolding store_url write_secret refresh write_url
  store_url_panics s secret there nil needed = ground (arith, must_update secret nil needed)
