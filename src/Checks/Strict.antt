-- ===== src/Checks/Strict.antt =====
-- internal/checks/version.go: what a check in strict mode asks of the pods, without the code's loops
-- and lists.
use automatic_db_upgrades.Common.{
  String, true, false, List, [], ◌∷◌, ◌≡◌, ◌≢◌, ◌↔◌, inl, inr, refl, arith, ◌==◌, ==_iff,
  ==-eq-false, All, Bool-cases,
}
use automatic_db_upgrades.Kube.Objects.{Container, Pod}
use automatic_db_upgrades.Kube.Meta.{Result, ok, err}
use automatic_db_upgrades.Api.Types.{MinPodVersionCheck}
use automatic_db_upgrades.Checks.Image.{extract_version_from_image}
use automatic_db_upgrades.Checks.Scans.{considered, append-ne-nil, All-of_every, scan_pods_iff}
use automatic_db_upgrades.Checks.Version.{
  Semver, PodVersionInfo, VersionCheckResult, Tally, no_tally, strict_mode, info_of, judge_parsed,
  trim_v, judge, scan_pods, conclude, check_pods,
}

module _ (V : Semver) where
  -- The image names a version that parses and is not below the minimum.
  abbrev pub IsRecent : V.Version → Container → Type 0
  IsRecent min c =
      (extract_version_from_image c.image ≢ "")
      × (v : V.Version) × (V.new_version (trim_v (extract_version_from_image c.image)) ≡ ok v)
      × (V.less_than v min ≡ false)

  parsed-strict :
      (min : V.Version) (info : PodVersionInfo) (t : Tally) (r : Result String V.Version)
      → ((judge_parsed V min info t r true).failed ≡ [])
        ↔ ((t.failed ≡ []) × (v : V.Version) × (r ≡ ok v) × (V.less_than v min ≡ false))
  parsed-strict min info t (err e) = (λ h. absurd (append-ne-nil t.failed info h), λ k. cc (k.2))
  parsed-strict min info t (ok v) =
      let keep = append-ne-nil t.failed info in
      elim (Bool-cases (V.less_than v min)) [
        | inl e ↦ rw e (λ h. absurd (keep h), λ k. absurd (cc (e, k.2, k.3)))
        | inr e ↦ rw e (λ h. (h, v, refl, e), λ k. k.0)
      ]

  judge-strict :
      (check : MinPodVersionCheck) (min : V.Version) (pod : Pod) (c : Container) (t : Tally)
      → strict_mode check ≡ true
      → ((judge V check min pod c t).failed ≡ []) ↔ ((t.failed ≡ []) × IsRecent min c)
  unfolding judge
  judge-strict check min pod c t strict = rw strict (
      let keep = append-ne-nil t.failed in
      elim (Bool-cases (extract_version_from_image c.image == "")) [
        | inl e ↦
            let empty = (==_iff (extract_version_from_image c.image) "").0 e in
            rw e (λ h. absurd (keep _ h), λ k. absurd (k.1.0 empty))
        | inr e ↦
            let named = ==-eq-false (extract_version_from_image c.image) "" e in
            let (to, from) =
              parsed-strict min (info_of pod c (extract_version_from_image c.image)) t
                (V.new_version (trim_v (extract_version_from_image c.image))) in
            rw e (
              λ h. let p = to h in (p.0, (named, p.1, p.2, p.3)),
              λ k. from (k.0, k.1.1, k.1.2, k.1.3),
            )
      ])

  judge-skipped :
      (check : MinPodVersionCheck) (min : V.Version) (pod : Pod) (c : Container) (t : Tally)
      → strict_mode check ≡ true
      → ((judge V check min pod c t).skipped ≡ []) ↔ ((t.skipped ≡ []) × Unit {0})
  unfolding judge
  judge-skipped check min pod c t strict = ground arith

  conclude-passed :
      (check : MinPodVersionCheck) (t : Tally)
      → t.skipped ≡ []
      → ((conclude V check t).passed ≡ true) ↔ (t.failed ≡ [])
  unfolding conclude
  conclude-passed check t skipped = ground arith

  -- In strict mode, and with a minimum version that parses, the check of at least one pod gives a
  -- result, and it passes exactly if in every pod every considered container is recent. The
  -- considered containers are all of the pod, or the first one of the name that the check gives: a
  -- pod without a container of that name counts as passing.
  pub check_pods-strict :
      (check : MinPodVersionCheck) (min : V.Version) (pod : Pod) (pods : List Pod)
      → V.new_version (trim_v check.min_version) ≡ ok min
      → strict_mode check ≡ true
      → (r : VersionCheckResult) × (check_pods V check (pod ∷ pods) ≡ ok r)
        × ((r.passed ≡ true) ↔ All (λ p. All (IsRecent min) (considered check p)) (pod ∷ pods))
  unfolding check_pods
  check_pods-strict check min pod pods parses strict =
      let t = scan_pods V check min (pod ∷ pods) no_tally in
      let (to, from) =
        scan_pods_iff V check min (λ t. t.failed ≡ []) (IsRecent min)
          (λ pod c t. judge-strict check min pod c t strict) (pod ∷ pods) no_tally in
      let none_skipped =
        (scan_pods_iff V check min (λ t. t.skipped ≡ []) (λ _. Unit)
            (λ pod c t. judge-skipped check min pod c t strict) (pod ∷ pods) no_tally).1
          (
            refl,
            All-of_every _ (λ p. All-of_every _ (λ _. tt) (considered check p)) (pod ∷ pods),
          ) in
      let (passed_to, passed_from) = conclude-passed check t none_skipped in
      (
        conclude V check t,
        rw (check_pods, parses) refl,
        (λ h. (to (passed_to h)).1, λ k. passed_from (from (refl, k))),
      )
