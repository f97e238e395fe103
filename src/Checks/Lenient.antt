-- ===== src/Checks/Lenient.antt =====
-- internal/checks/version.go: what a check that is not in strict mode asks of the pods.
use automatic_db_upgrades.Common.{
  ◌+◌, String, true, false, Option, none, some, List, [], ◌∷◌, ◌++◌, ◌≡◌, ◌≢◌, ◌↔◌, ◌⊎◌, inl, inr,
  refl, arith, ◌==◌, if◌then◌else◌, All, Bool-cases,
}
use automatic_db_upgrades.Kube.Objects.{Container, Pod}
use automatic_db_upgrades.Kube.Meta.{Result, ok, err, Result-cases}
use automatic_db_upgrades.Api.Types.{MinPodVersionCheck}
use automatic_db_upgrades.Checks.Image.{extract_version_from_image}
use automatic_db_upgrades.Checks.Scans.{considered, append-ne-nil, scan_pods_iff}
use automatic_db_upgrades.Checks.Version.{
  Semver, PodVersionInfo, VersionCheckResult, Tally, no_tally, strict_mode, trim_v, judge,
  scan_pods, conclude, check_pods,
}

module _ (V : Semver) where
  abbrev parsed : Result String V.Version → Option V.Version
  parsed (ok v) = some v
  parsed (err _) = none

  -- The version of a container's image, if it has one that parses.
  abbrev pub version_of : Container → Option V.Version
  version_of c =
      let version = extract_version_from_image c.image in
      if version == "" then none else parsed (V.new_version (trim_v version))

  abbrev pub IsNotOld : V.Version → Container → Type 0
  IsNotOld min c = (v : V.Version) → version_of c ≡ some v → V.less_than v min ≡ false

  module _ (check : MinPodVersionCheck) (min : V.Version) (pod : Pod) (c : Container) (t : Tally)
      (lenient : strict_mode check ≡ false) where
    -- A round skips the container, counts it and fails it, or counts it.
    judge-cases :
        ((info : PodVersionInfo) × (version_of c ≡ none)
          × (judge V check min pod c t ≡ record t { skipped = t.skipped ++ info ∷ [] }))
        ⊎ ((v : V.Version) × (info : PodVersionInfo) × (version_of c ≡ some v)
            × (V.less_than v min ≡ true)
            × (judge V check min pod c t
                ≡ record t { failed = t.failed ++ info ∷ []; checked = t.checked + 1 }))
        ⊎ ((v : V.Version) × (version_of c ≡ some v)
            × (V.less_than v min ≡ false)
            × (judge V check min pod c t ≡ record t { checked = t.checked + 1 }))
    unfolding judge
    judge-cases = rw lenient (elim (Bool-cases (extract_version_from_image c.image == "")) [
      | inl e ↦ rw e (inl (_, refl, refl))
      | inr e ↦ elim (Result-cases (V.new_version (trim_v (extract_version_from_image c.image)))) [
        | inl (e', bad) ↦ rw (e, bad) (inl (_, refl, refl))
        | inr (v, good) ↦ elim (Bool-cases (V.less_than v min)) [
          | inl old ↦ rw (e, good) (rw old (inr (inl (v, _, refl, old, refl))))
          | inr new ↦ rw (e, good) (rw new (inr (inr (v, refl, new, refl))))
        ]
      ]
    ])

    judge-failed : ((judge V check min pod c t).failed ≡ []) ↔ ((t.failed ≡ []) × IsNotOld min c)
    judge-failed = elim judge-cases [
      | inl (info, unread, e) ↦ rw e (λ h. (h, λ v p. cc (unread, p)), λ k. k.0)
      | inr (inl (v, info, read, old, e)) ↦
          rw e (λ h. absurd (append-ne-nil t.failed info h), λ k. cc (k.1 v read, old))
      | inr (inr (v, read, new, e)) ↦ rw e (λ h. (h, λ v' p. cc (read, p, new)), λ k. k.0)
    ]

    judge-skipped :
        ((judge V check min pod c t).skipped ≡ []) ↔ ((t.skipped ≡ []) × (version_of c ≢ none))
    judge-skipped = elim judge-cases [
      | inl (info, unread, e) ↦
          rw e (λ h. absurd (append-ne-nil t.skipped info h), λ k. absurd (k.1 unread))
      | inr (inl (v, info, read, old, e)) ↦ rw e (λ h. (h, λ p. cc (read, p)), λ k. k.0)
      | inr (inr (v, read, new, e)) ↦ rw e (λ h. (h, λ p. cc (read, p)), λ k. k.0)
    ]

    judge-checked :
        ((judge V check min pod c t).checked ≡ 0) ↔ ((t.checked ≡ 0) × (version_of c ≡ none))
    judge-checked = elim judge-cases [
      | inl (info, unread, e) ↦ rw e (λ h. (h, unread), λ k. k.0)
      | inr (inl (v, info, read, old, e)) ↦
          rw e (λ h. absurd (omega arith), λ k. absurd (cc (read, k.1)))
      | inr (inr (v, read, new, e)) ↦ rw e (λ h. absurd (omega arith), λ k. absurd (cc (read, k.1)))
    ]

  conclude-passed :
      (check : MinPodVersionCheck) (t : Tally)
      → ((conclude V check t).passed ≡ true)
        ↔ ((t.failed ≡ []) × ((t.checked ≢ 0) ⊎ (t.skipped ≡ [])))
  unfolding conclude
  conclude-passed check t = ground arith

  -- Every considered container of the pods has the property.
  abbrev pub Throughout : MinPodVersionCheck → (Container → Type 0) → List Pod → Type 0
  Throughout check Q pods = All (λ pod. All Q (considered check pod)) pods

  -- Not in strict mode, and with a minimum version that parses, the check of at least one pod gives a
  -- result, and it passes exactly if no considered container has a version below the minimum, and
  -- either not all of them are without a version that parses, or none of them is.
  pub check_pods-lenient :
      (check : MinPodVersionCheck) (min : V.Version) (pod : Pod) (pods : List Pod)
      → V.new_version (trim_v check.min_version) ≡ ok min
      → strict_mode check ≡ false
      → (r : VersionCheckResult) × (check_pods V check (pod ∷ pods) ≡ ok r)
        × ((r.passed ≡ true) ↔ (
            Throughout check (IsNotOld min) (pod ∷ pods)
            × ((¬ Throughout check (λ c. version_of c ≡ none) (pod ∷ pods))
                ⊎ Throughout check (λ c. version_of c ≢ none) (pod ∷ pods))))
  unfolding check_pods
  check_pods-lenient check min pod pods parses lenient =
      let t = scan_pods V check min (pod ∷ pods) no_tally in
      let (failed_to, failed_from) =
        scan_pods_iff V check min (λ t. t.failed ≡ []) (IsNotOld min)
          (λ pod c t. judge-failed check min pod c t lenient) (pod ∷ pods) no_tally in
      let (skipped_to, skipped_from) =
        scan_pods_iff V check min (λ t. t.skipped ≡ []) (λ c. version_of c ≢ none)
          (λ pod c t. judge-skipped check min pod c t lenient) (pod ∷ pods) no_tally in
      let (checked_to, checked_from) =
        scan_pods_iff V check min (λ t. t.checked ≡ 0) (λ c. version_of c ≡ none)
          (λ pod c t. judge-checked check min pod c t lenient) (pod ∷ pods) no_tally in
      let (to, from) = conclude-passed check t in
      (
        conclude V check t,
        rw (check_pods, parses) refl,
        (
          λ h.
              let (sound, some_read) = to h in
              (
                (failed_to sound).1,
                elim some_read [
                  | inl n ↦ inl (λ all. n (checked_from (refl, all)))
                  | inr e ↦ inr (skipped_to e).1
                ],
              ),
          λ k. from (
            failed_from (refl, k.0),
            elim k.1 [
              | inl n ↦ inl (λ e. n (checked_to e).1)
              | inr all ↦ inr (skipped_from (refl, all))
            ],
          ),
        ),
      )
