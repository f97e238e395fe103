-- ===== src/Api/Updates.antt =====
-- Which updates the webhook lets through.
use automatic_db_upgrades.Common.{
  String, true, false, Option, none, some, List, [], ◌∷◌, ◌≡◌, ◌⊎◌, ◌↔◌, refl, arith, ℤ,
}
use automatic_db_upgrades.Kube.Objects.{SecretKeySelector, Condition, is_true}
use automatic_db_upgrades.Api.Types.{AwsSpec, DatabaseSpec, DbUpgrade, condition_progressing}
use automatic_db_upgrades.Api.Conditions.{find_condition, Shows}
use automatic_db_upgrades.Checks.Version.{Semver}
use automatic_db_upgrades.Checks.Values.{Floats}
use automatic_db_upgrades.Api.Webhook.{
  ref_of, validate_same_ref, validate_same_aws, validate_immutable_fields, is_progressing,
  validate_not_progressing, validate_upgrade, validate_update,
}

-- The references name the same key of the same Secret; their field `optional` is free.
abbrev pub IsSameRef : Option SecretKeySelector → Option SecretKeySelector → Type 0
IsSameRef none none = Unit
IsSameRef (some old) (some new) = (old.name ≡ new.name) × (old.key ≡ new.key)
IsSameRef none (some _) = ⊥
IsSameRef (some _) none = ⊥

pub record IsSameDatabase (new old : DatabaseSpec) : Type 0 where
  pub kind : new.kind ≡ old.kind
  pub ref : IsSameRef (ref_of old) (ref_of new)
  pub aws : old.aws ≡ new.aws

validate_same_ref_iff :
    (old new : Option SecretKeySelector) → (validate_same_ref old new ≡ none) ↔ IsSameRef old new
unfolding validate_same_ref
validate_same_ref_iff none none = (λ _. tt, λ _. refl)
validate_same_ref_iff (some old) (some new) = ground arith
validate_same_ref_iff none (some _) = (λ h. cc, λ h. absurd h)
validate_same_ref_iff (some _) none = (λ h. cc, λ h. absurd h)

validate_same_aws_iff :
    (old new : Option AwsSpec) → (validate_same_aws old new ≡ none) ↔ (old ≡ new)
unfolding validate_same_aws
validate_same_aws_iff none none = (λ _. refl, λ _. refl)
validate_same_aws_iff (some old) (some new) = ground arith
validate_same_aws_iff none (some _) = (λ h. cc, λ h. cc)
validate_same_aws_iff (some _) none = (λ h. cc, λ h. cc)

-- The check of the immutable fields passes exactly if the database's type, the name and the key of its
-- reference to a Secret and its AWS configuration are the same; the reference's `optional` may change.
pub validate_immutable_fields_iff :
    (new old : DatabaseSpec) → (validate_immutable_fields new old ≡ none) ↔ IsSameDatabase new old
unfolding validate_immutable_fields
validate_immutable_fields_iff new old =
    let (r_to, r_from) = validate_same_ref_iff (ref_of old) (ref_of new) in
    let (a_to, a_from) = validate_same_aws_iff old.aws new.aws in
    (
      λ h. record { kind = ground arith; ref = r_to (ground arith); aws = a_to (ground arith) },
      λ v. let e = r_from v.ref in let f = a_from v.aws in let g = v.kind in ground arith,
    )

validate_not_progressing_iff :
    (new old : DbUpgrade)
    → (validate_not_progressing new old ≡ none)
      ↔ ((old.spec ≡ new.spec) ⊎ (is_progressing old.status.conditions ≡ false))
unfolding validate_not_progressing
validate_not_progressing_iff new old = ground arith

-- The webhook lets an update through exactly if it leaves the spec alone or the old object is not
-- progressing, the database's type, its reference to a Secret and its AWS configuration are kept,
-- and the new spec is one that it would let be created.
pub validate_update_iff :
    (V : Semver) (F : Floats) (new old : DbUpgrade)
    → (validate_update V F new old ≡ none) ↔ (
        ((old.spec ≡ new.spec) ⊎ (is_progressing old.status.conditions ≡ false))
        × IsSameDatabase new.spec.database old.spec.database
        × (validate_upgrade V F new.spec ≡ none))
unfolding validate_update
validate_update_iff V F new old =
    let (p_to, p_from) = validate_not_progressing_iff new old in
    let (i_to, i_from) = validate_immutable_fields_iff new.spec.database old.spec.database in
    (
      λ h. (p_to (ground arith), i_to (ground arith), ground arith),
      λ v. let e = p_from v.0 in let f = i_from v.1 in let g = v.2 in ground arith,
    )

found-is_progressing :
    (cs : List Condition) (c : Condition)
    → find_condition condition_progressing cs ≡ some c
    → c.status ≡ is_true
    → is_progressing cs ≡ true
unfolding is_progressing find_condition
found-is_progressing [] c e t = cc
found-is_progressing (d ∷ cs) c e t = ground (arith, found-is_progressing cs c)

-- Conditions that show Progressing with the status true are progressing for the webhook.
pub Shows-is_progressing :
    {reason message : String} {generation : ℤ} (cs : List Condition)
    → Shows condition_progressing true reason message generation cs
    → is_progressing cs ≡ true
Shows-is_progressing cs shown = found-is_progressing cs shown.condition shown.found shown.status_eq
