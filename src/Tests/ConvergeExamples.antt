-- ===== src/Tests/ConvergeExamples.antt =====
-- Two reconciles against the server with a registry of Jobs.
use mathlib.Core.List.{Memᴰ}
use mathlib.Core.List.Memᴰ as Memᴰ
use automatic_db_upgrades.Common.{String, true, false, none, some, List, ◌≡◌}
use automatic_db_upgrades.Kube.Objects.{Job}
use automatic_db_upgrades.Controller.Result.{Reconciler}
use automatic_db_upgrades.Checks.Version.{conclude as conclude_pods}
use automatic_db_upgrades.Controller.Runs.{reconciled}
use automatic_db_upgrades.Tests.Server.{two_versions, whole_numbers, one_hash}
use automatic_db_upgrades.Tests.Registry.{registry}

abbrev operator : Reconciler registry
operator = record {
  settings = record {
    crane_image = "crane";
    atlas_image = "atlas";
    allow_insecure_registries = false;
  };
  has_rest_config = true;
  aws_client_manager = none;
}

some_injective : {a b : Job} → some a ≡ some b → b ≡ a
some_injective e = cc

abbrev run_once : List String → List String
run_once w = reconciled registry two_versions whole_numbers one_hash operator "team" "app" w
