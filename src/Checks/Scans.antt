-- ===== src/Checks/Scans.antt =====
-- internal/checks/version.go: the loops over pods and containers. A fact about the tally that each
-- round extends by a fact about its container is extended by all the containers a check is about.
use automatic_db_upgrades.Common.{
  String, List, [], ◌∷◌, ◌++◌, ◌≢◌, ◌↔◌, inl, inr, ◌==◌, if◌then◌else◌, All, Bool-cases,
}
use automatic_db_upgrades.Kube.Objects.{Container, Pod}
use automatic_db_upgrades.Api.Types.{MinPodVersionCheck}
use automatic_db_upgrades.Checks.Version.{
  Semver, PodVersionInfo, Tally, is_other_container, judge, scan_containers, scan_pods,
}

-- The first container of a name.
abbrev first_named : String → List Container → List Container
first_named name [] = []
first_named name (c ∷ cs) =
    let later = first_named name cs in if c.name == name then c ∷ [] else later

-- The containers of a pod that a check is about.
unfoldable pub considered : MinPodVersionCheck → Pod → List Container
considered check pod =
    let all = pod.containers ++ pod.init_containers in
    if check.container_name == "" then all else first_named check.container_name all

pub append-ne-nil : (xs : List PodVersionInfo) (x : PodVersionInfo) → xs ++ x ∷ [] ≢ []
append-ne-nil [] x e = cc
append-ne-nil (y ∷ xs) x e = cc

pub All-of_every {ℓ κ} : {A : Type ℓ} (P : A → Type κ) → ((a : A) → P a) → (xs : List A) → All P xs
All-of_every P every [] = tt
All-of_every P every (x ∷ xs) = (every x, All-of_every P every xs)

module _ (V : Semver) (check : MinPodVersionCheck) (min : V.Version) (P : Tally → Type 0)
    (Q : Container → Type 0)
    (step : (pod : Pod) (c : Container) (t : Tally)
      → P (judge V check min pod c t) ↔ (P t × Q c)) where
  scan_containers_iff :
      (pod : Pod) (cs : List Container) (t : Tally)
      → P (scan_containers V check min pod cs t) ↔ (
          P t
          × All Q (if check.container_name == "" then cs else first_named check.container_name cs))
  unfolding scan_containers is_other_container
  scan_containers_iff pod [] t = elim (Bool-cases (check.container_name == "")) [
    | inl e ↦ rw e (λ h. (h, tt), λ k. k.0)
    | inr e ↦ rw e (λ h. (h, tt), λ k. k.0)
  ]
  scan_containers_iff pod (c ∷ cs) t =
      let (judge_to, judge_from) = step pod c t in
      elim (Bool-cases (check.container_name == "")) [
        | inl e ↦
            let (to, from) = rw e at (scan_containers_iff pod cs (judge V check min pod c t)) in
            rw e (
              λ h. let p = judge_to (to h).0 in (p.0, (p.1, (to h).1)),
              λ k. from (judge_from (k.0, k.1.0), k.1.1),
            )
        | inr e ↦ elim (Bool-cases (c.name == check.container_name)) [
          | inl e' ↦
              rw (e, e') (λ h. let p = judge_to h in (p.0, (p.1, tt)), λ k. judge_from (k.0, k.1.0))
          | inr e' ↦
              let (to, from) = rw e at (scan_containers_iff pod cs t) in rw (e, e') (to, from)
        ]
      ]

  pub scan_pods_iff :
      (pods : List Pod) (t : Tally)
      → P (scan_pods V check min pods t) ↔ (P t × All (λ pod. All Q (considered check pod)) pods)
  unfolding scan_pods considered
  scan_pods_iff [] t = (λ h. (h, tt), λ k. k.0)
  scan_pods_iff (pod ∷ pods) t =
      let all = pod.containers ++ pod.init_containers in
      let (first, first_from) = scan_containers_iff pod all t in
      let (to, from) = scan_pods_iff pods (scan_containers V check min pod all t) in
      (
        λ h. let p = first (to h).0 in (p.0, (p.1, (to h).1)),
        λ k. from (first_from (k.0, k.1.0), k.1.1),
      )
