-- ===== src/Tests/ControllerExamples.antt =====
-- The reconciler on concrete objects: its writes, its Jobs, its Secret.
use automatic_db_upgrades.Common.{
  ◌≤◌, none, some, [], ◌∷◌, ◌≡◌, ◌≢◌, inr, refl, All, Bytes, Bytes-discrete, String-discrete,
}
use automatic_db_upgrades.Kube.Meta.{ok}
use automatic_db_upgrades.Kube.Cluster.{SecretsHaveContents}
use automatic_db_upgrades.Kube.Monad.{panic}
use automatic_db_upgrades.Controller.Result.{Reconciler}
use automatic_db_upgrades.Controller.Secrets.{
  lookup, insert, needs_update, store_url, refresh, write_secret, write_url,
}
use automatic_db_upgrades.Controller.Reconcile.{reconcile_upgrade, reconcile}
use automatic_db_upgrades.Controller.Permitted.{Permitted}
use automatic_db_upgrades.Controller.OneJob.{job_writes, reconcile-job_writes}
use automatic_db_upgrades.Controller.Safety.{reconcile-Permitted, reconcile-ne-panic}
use automatic_db_upgrades.Controller.Gated.{IsGated, reconcile_upgrade-IsGated}
use automatic_db_upgrades.Controller.StoredUrl.{IsSupplied, store_url-IsSupplied, store_url_panics}
use automatic_db_upgrades.Tests.Objects.{checked, full_secret, secret_with}
use automatic_db_upgrades.Tests.Server.{
  serving, server, served, start, two_versions, whole_numbers, one_hash, reconciler,
}

abbrev full : Reconciler server
full = reconciler (ok full_secret)

reconcile-Permitted_example :
    All
      (Permitted server one_hash checked)
      (reconcile server two_versions whole_numbers one_hash full "team" "app"
        (start (served checked []))).1.trace
reconcile-Permitted_example =
    reconcile-Permitted server two_versions whole_numbers one_hash full "team" "app"
      (served checked []) checked refl

server-SecretsHaveContents : SecretsHaveContents server
server-SecretsHaveContents namespace name w s e h = cc

reconcile-ne-panic_example :
    (reconcile server two_versions whole_numbers one_hash full "team" "app"
      (start (served checked []))).0
    ≢ panic
reconcile-ne-panic_example =
    reconcile-ne-panic server two_versions whole_numbers one_hash full server-SecretsHaveContents
      "team" "app" (served checked [])

reconcile_upgrade-IsGated_example :
    IsGated server two_versions whole_numbers one_hash full checked (
      reconcile_upgrade server two_versions whole_numbers one_hash full checked
        (start (served checked [])))
reconcile_upgrade-IsGated_example =
    reconcile_upgrade-IsGated server two_versions whole_numbers one_hash full checked
      (served checked [])

abbrev url : Bytes
url = 0x62 ∷ []

store_url-IsSupplied_example :
    IsSupplied server checked url
      (start (served checked []))
      (secret_with (some (("url", url) ∷ [])))
      (store_url server checked url (start (served checked []))).1.trace
unfolding store_url write_secret refresh needs_update write_url insert lookup Bytes-discrete
    String-discrete
store_url-IsSupplied_example =
    store_url-IsSupplied server checked url (start (served checked []))
      (secret_with (some (("url", url) ∷ []))) refl

store_url_panics_example :
    (store_url (serving (ok (secret_with none))) checked url (start (served checked []))).0 ≡ panic
store_url_panics_example =
    store_url_panics (serving (ok (secret_with none))) checked url (start (served checked []))
      (secret_with none) refl refl (inr (λ e. cc))

reconcile-job_writes_example :
    job_writes
      (reconcile server two_versions whole_numbers one_hash full "team" "app"
        (start (served checked []))).1.trace
    ≤ 1
reconcile-job_writes_example =
    reconcile-job_writes server two_versions whole_numbers one_hash full "team" "app"
      (served checked [])
