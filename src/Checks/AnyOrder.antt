-- ===== src/Checks/AnyOrder.antt =====
-- internal/checks/version.go: the order in which the server lists the pods does not matter.
use mathlib.Core.Logic.{∥∥₁_elim}
use mathlib.Core.List.{Perm, Permᴰ}
use mathlib.Core.List.Permᴰ as Permᴰ
use automatic_db_upgrades.Common.{
  String, Bool, true, Option, none, some, List, [], ◌∷◌, ◌≡◌, ◌≢◌, ◌↔◌, inl, inr, refl, sym, subst,
  ◌∙◌, ap, All, Bool-cases, is_empty,
}
use automatic_db_upgrades.Kube.Objects.{Container, Pod}
use automatic_db_upgrades.Kube.Meta.{Result, ok, err, Result-cases}
use automatic_db_upgrades.Api.Types.{MinPodVersionCheck}
use automatic_db_upgrades.Checks.Version.{
  Semver, VersionCheckResult, check_pods, strict_mode, trim_v,
}
use automatic_db_upgrades.Checks.Strict.{IsRecent, check_pods-strict}
use automatic_db_upgrades.Checks.Lenient.{version_of, IsNotOld, Throughout, check_pods-lenient}

-- Whether a check gave a result, and whether it passed.
abbrev pub verdict : Result String VersionCheckResult → Option Bool
verdict (err _) = none
verdict (ok r) = some r.passed

All-Perm : {A : Type 0} (P : A → Type 0) {xs ys : List A} → Permᴰ xs ys → All P xs → All P ys
All-Perm P Permᴰ.nil h = tt
All-Perm P (Permᴰ.cons e p) h = (subst P e h.0, All-Perm P p h.1)
All-Perm P (Permᴰ.swap e e') h = (subst P e' h.1.0, (subst P e h.0, h.1.1))
All-Perm P (Permᴰ.trans p q) h = All-Perm P q (All-Perm P p h)

is_empty-Perm : {A : Type 0} {xs ys : List A} → Permᴰ xs ys → is_empty xs ≡ is_empty ys
is_empty-Perm Permᴰ.nil = refl
is_empty-Perm (Permᴰ.cons e p) = refl
is_empty-Perm (Permᴰ.swap e e') = refl
is_empty-Perm (Permᴰ.trans p q) = is_empty-Perm p ∙ is_empty-Perm q

-- Two answers that are right under equivalent conditions.
same_verdict :
    {A B : Type 0} (r r' : Result String VersionCheckResult)
    → (out : VersionCheckResult) × (r ≡ ok out) × ((out.passed ≡ true) ↔ A)
    → (out : VersionCheckResult) × (r' ≡ ok out) × ((out.passed ≡ true) ↔ B)
    → (A ↔ B)
    → verdict r ≡ verdict r'
same_verdict r r' (out, e, (to, from)) (out', e', (to', from')) (there, back) =
    rw (e, e')
      (elim (Bool-cases out.passed) [
        | inl p ↦ ap some (p ∙ sym (from' (there (to p))))
        | inr p ↦ elim (Bool-cases out'.passed) [
          | inl p' ↦ ap some (from (back (to' p')) ∙ sym p')
          | inr p' ↦ ap some (p ∙ sym p')
        ]
      ])

module _ (V : Semver) (check : MinPodVersionCheck) where
  check_pods-Permᴰ :
      (pod pod' : Pod) (pods pods' : List Pod)
      → Permᴰ (pod ∷ pods) (pod' ∷ pods')
      → verdict (check_pods V check (pod ∷ pods)) ≡ verdict (check_pods V check (pod' ∷ pods'))
  unfolding check_pods
  check_pods-Permᴰ pod pod' pods pods' p =
      let all : (Q : Container → Type 0)
          → Throughout V check Q (pod ∷ pods) ↔ Throughout V check Q (pod' ∷ pods') =
        λ Q. (All-Perm _ p, All-Perm _ (Permᴰ.symm p)) in
      elim (Result-cases (V.new_version (trim_v check.min_version))) [
        | inl (e, bad) ↦ rw (check_pods, bad) refl
        | inr (min, good) ↦ elim (Bool-cases (strict_mode check)) [
          | inl strict ↦
              same_verdict _ _ (check_pods-strict V check min pod pods good strict)
                (check_pods-strict V check min pod' pods' good strict) (all (IsRecent V min))
          | inr lenient ↦
              same_verdict _ _ (check_pods-lenient V check min pod pods good lenient)
                (check_pods-lenient V check min pod' pods' good lenient)
                (let (old_to, old_from) = all (IsNotOld V min) in
                  let (unread_to, unread_from) = all (λ c. version_of V c ≡ none) in
                  let (read_to, read_from) = all (λ c. version_of V c ≢ none) in
                  (
                    λ h. (
                      old_to h.0,
                      elim h.1 [ inl n ↦ inl (λ a. n (unread_from a)) | inr a ↦ inr (read_to a) ],
                    ),
                    λ h. (
                      old_from h.0,
                      elim h.1 [ inl n ↦ inl (λ a. n (unread_to a)) | inr a ↦ inr (read_from a) ],
                    ),
                  ))
        ]
      ]

  check_listed-Permᴰ :
      (pods pods' : List Pod)
      → Permᴰ pods pods'
      → verdict (check_pods V check pods) ≡ verdict (check_pods V check pods')
  check_listed-Permᴰ [] [] p = refl
  check_listed-Permᴰ [] (pod' ∷ pods') p = cc (is_empty-Perm p)
  check_listed-Permᴰ (pod ∷ pods) [] p = cc (is_empty-Perm p)
  check_listed-Permᴰ (pod ∷ pods) (pod' ∷ pods') p = check_pods-Permᴰ pod pod' pods pods' p

  -- The order of the pods does not matter: on two lists of the same pods the check fails with an error on
  -- both or on neither, and passes on both or on neither, in either mode.
  pub check_pods-Perm :
      (pods pods' : List Pod)
      → Perm pods pods'
      → verdict (check_pods V check pods) ≡ verdict (check_pods V check pods')
  check_pods-Perm pods pods' p = ∥∥₁_elim p (hlevel) (check_listed-Permᴰ pods pods')
