-- ===== src/Checks/Version.antt =====
-- internal/checks/version.go: the check that the pods behind a selector run a minimum version.
-- The semver package is the interface `Semver`; log lines are left out. A message is the text that
-- fmt prints, but `%q` escapes only the quote and the backslash, and the labels of a selector are
-- listed as they stand (fmt sorts a map by its keys).
use automatic_db_upgrades.Common.{
  ℕ, ◌+◌, ℤ, String, code, ◌<>◌, Bool, true, false, ◌&&◌, ◌||◌, not, none, some, List, [], ◌∷◌,
  ◌++◌, eqb, ◌==◌, if◌then◌else◌, is_empty, length, show_ℕ,
}
use automatic_db_upgrades.Kube.Objects.{Container, Pod}
use automatic_db_upgrades.Kube.Meta.{Result, ok, err, text}
use automatic_db_upgrades.Kube.Cluster.{Cluster}
use automatic_db_upgrades.Kube.Monad.{M, pure, ask, ◌>>=◌}
use automatic_db_upgrades.Api.Types.{MinPodVersionCheck}
use automatic_db_upgrades.Checks.Image.{extract_version_from_image}

-- github.com/Masterminds/semver/v3
pub record Semver : Type 1 where
  pub Version : Type 0
  pub new_version : String → Result String Version
  pub less_than : Version → Version → Bool
  -- -1, 0 or 1
  pub compare : Version → Version → ℤ

pub record PodVersionInfo : Type 0 where
  pub name : String
  pub namespace : String
  pub container_name : String
  pub image_tag : String
  pub version : String

pub record VersionCheckResult : Type 0 where
  pub passed : Bool
  pub message : String
  pub failed_pods : List PodVersionInfo
  pub skipped_pods : List PodVersionInfo

-- strings.TrimPrefix(s, "v")
unfoldable pub trim_v : String → String
trim_v String.[] = ""
trim_v (String.◌∷◌ c s) = if eqb (code c) b'v' then s else String.◌∷◌ c s

escape : String → String
escape String.[] = ""
escape (String.◌∷◌ c s) =
    if eqb (code c) b'"' || eqb (code c) 0x5c
    then "\\" <> (String.◌∷◌ c (escape s))
    else String.◌∷◌ c (escape s)

-- `%q`
unfoldable pub quote : String → String
unfolding escape
quote s = "\"" <> (escape s <> "\"")

labels_from : List (String × String) → String
labels_from [] = "]"
labels_from ((k, v) ∷ []) = k <> (":" <> (v <> "]"))
labels_from ((k, v) ∷ rest) = k <> (":" <> (v <> (" " <> labels_from rest)))

-- `%v` of a map of labels
unfoldable pub show_labels : List (String × String) → String
unfolding labels_from
show_labels labels = "map[" <> labels_from labels

-- The variables of the loop over the pods.
pub record Tally : Type 0 where
  pub failed : List PodVersionInfo
  pub skipped : List PodVersionInfo
  pub checked : ℕ

abbrev pub no_tally : Tally
no_tally = record { failed = []; skipped = []; checked = 0 }

abbrev pub strict_mode : MinPodVersionCheck → Bool
strict_mode check = elim check.strict_mode [ none ↦ true | some b ↦ b ]

-- A container without a usable version fails in strict mode and is skipped otherwise.
abbrev pub reject : Bool → PodVersionInfo → Tally → Tally
reject true info t = record t { failed = t.failed ++ info ∷ [] }
reject false info t = record t { skipped = t.skipped ++ info ∷ [] }

abbrev pub info_of : Pod → Container → String → PodVersionInfo
info_of pod c version = record {
  name = pod.name;
  namespace = pod.namespace;
  container_name = c.name;
  image_tag = c.image;
  version = version;
}

-- `check.ContainerName != "" && container.Name != check.ContainerName`
unfoldable pub is_other_container : MinPodVersionCheck → Container → Bool
is_other_container check c =
    not (check.container_name == "") && not (c.name == check.container_name)

module _ (V : Semver) where
  abbrev pub judge_parsed :
      V.Version → PodVersionInfo → Tally → Result String V.Version → Bool → Tally
  judge_parsed min info t (err _) strict = reject strict info t
  judge_parsed min info t (ok v) strict =
      if V.less_than v min
      then record t { failed = t.failed ++ info ∷ []; checked = t.checked + 1 }
      else record t { checked = t.checked + 1 }

  -- One round of the inner loop, without the `continue` at its head and the `break` at its end.
  unfoldable pub judge : MinPodVersionCheck → V.Version → Pod → Container → Tally → Tally
  judge check min pod c t =
      let version = extract_version_from_image c.image in
      if version == ""
      then reject (strict_mode check) (info_of pod c "unknown") t
      else judge_parsed min (info_of pod c version) t (V.new_version (trim_v version))
          (strict_mode check)

  -- The inner loop. With a container name it breaks behind the first container of that name.
  unfoldable pub scan_containers :
      MinPodVersionCheck → V.Version → Pod → List Container → Tally → Tally
  scan_containers check min pod [] t = t
  scan_containers check min pod (c ∷ cs) t =
      let next = scan_containers check min pod cs t in
      let judged = judge check min pod c t in
      let both = scan_containers check min pod cs judged in
      if is_other_container check c
      then next
      else if not (check.container_name == "")
      then judged
      else both

  -- The outer loop.
  unfoldable pub scan_pods : MinPodVersionCheck → V.Version → List Pod → Tally → Tally
  scan_pods check min [] t = t
  scan_pods check min (pod ∷ pods) t =
      scan_pods check min pods
        (scan_containers check min pod (pod.containers ++ pod.init_containers) t)

  abbrev skipped_note : List PodVersionInfo → String → String
  skipped_note skipped msg =
      if is_empty skipped
      then msg
      else msg <> (" (" <> (show_ℕ (length skipped) <> " skipped due to non-semver tags)"))

  -- What the function returns behind the loops.
  unfoldable pub conclude : MinPodVersionCheck → Tally → VersionCheckResult
  conclude check t =
      if not (is_empty t.failed)
      then record {
        passed = false;
        message = skipped_note t.skipped (
            show_ℕ (length t.failed)
            <> (" pod(s) have version below minimum " <> check.min_version));
        failed_pods = t.failed;
        skipped_pods = t.skipped;
      }
      else if eqb t.checked 0 && not (is_empty t.skipped)
      then record {
        passed = false;
        message =
            "No pods with semver tags found ("
            <> (show_ℕ (length t.skipped) <> " skipped); cannot validate versions");
        failed_pods = [];
        skipped_pods = t.skipped;
      }
      else record {
        passed = true;
        message = skipped_note t.skipped (
            "All " <> (show_ℕ t.checked <> (" pod(s) meet minimum version " <> check.min_version)));
        failed_pods = [];
        skipped_pods = t.skipped;
      }

  -- The function behind the listing of the pods.
  unfoldable pub check_pods : MinPodVersionCheck → List Pod → Result String VersionCheckResult
  check_pods check [] = ok (record {
    passed = false;
    message = "No pods found matching selector " <> show_labels check.selector.match_labels;
    failed_pods = [];
    skipped_pods = [];
  })
  check_pods check (pod ∷ pods) = elim (V.new_version (trim_v check.min_version)) [
    | err e ↦ err ("invalid minimum version " <> (quote check.min_version <> (": " <> e)))
    | ok min ↦ ok (conclude check (scan_pods check min (pod ∷ pods) no_tally))
  ]

  -- CompareVersions
  unfoldable pub compare_versions : String → String → Result String ℤ
  compare_versions v1 v2 = elim (V.new_version (trim_v v1)) [
    | err e ↦ err ("invalid version " <> (quote v1 <> (": " <> e)))
    | ok ver1 ↦ elim (V.new_version (trim_v v2)) [
      | err e ↦ err ("invalid version " <> (quote v2 <> (": " <> e)))
      | ok ver2 ↦ ok (V.compare ver1 ver2)
    ]
  ]

  module _ (C : Cluster) where
    unfoldable pub check_single_pod_version :
        String → MinPodVersionCheck → M C.World (Result String VersionCheckResult)
    check_single_pod_version namespace check = elim (C.as_selector check.selector) [
      | err e ↦ pure (err ("invalid label selector: " <> e))
      | ok selector ↦ do
        listed ← ask (C.list_pods namespace selector)
        pure (elim listed [
          | err e ↦ err ("failed to list pods: " <> text e)
          | ok pods ↦ check_pods check pods
        ])
    ]

    -- CheckMinPodVersions stops at the first error and at the first check that does not pass.
    unfoldable pub check_min_pod_versions :
        String → List MinPodVersionCheck → M C.World (Result String VersionCheckResult)
    check_min_pod_versions namespace [] = pure (
        ok (record {
          passed = true;
          message = "All pod version checks passed";
          failed_pods = [];
          skipped_pods = [];
        }))
    check_min_pod_versions namespace (check ∷ checks) = do
      result ← check_single_pod_version namespace check
      elim result [
        | err e ↦ pure (err e)
        | ok r ↦
            let later = check_min_pod_versions namespace checks in
            if r.passed then later else pure (ok r)
      ]
