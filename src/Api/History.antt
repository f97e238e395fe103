-- ===== src/Api/History.antt =====
-- api/v1alpha1/dbupgrade_webhook.go: an object from its creation on, through the updates that the
-- webhook lets through and the status updates, which it does not see.
use automatic_db_upgrades.Common.{Option, none, some, ◌≡◌, refl, ◌∙◌}
use automatic_db_upgrades.Kube.Objects.{SecretKeySelector}
use automatic_db_upgrades.Api.Types.{DatabaseSpec, DbUpgrade, DbUpgradeStatus}
use automatic_db_upgrades.Api.Webhook.{ref_of, validate_upgrade, validate_update, validate_create}
use automatic_db_upgrades.Api.Updates.{IsSameRef, IsSameDatabase, validate_update_iff}
use automatic_db_upgrades.Checks.Version.{Semver}
use automatic_db_upgrades.Checks.Values.{Floats}

pub data History (V : Semver) (F : Floats) (first : DbUpgrade) : DbUpgrade → Type 0 where
  created : validate_create V F first ≡ none → History V F first first
  updated :
      {old : DbUpgrade} (new : DbUpgrade)
      → History V F first old
      → validate_update V F new old ≡ none
      → History V F first new
  reported :
      {old : DbUpgrade} (status : DbUpgradeStatus)
      → History V F first old
      → History V F first (record old { status = status })

IsSameRef-refl : (ref : Option SecretKeySelector) → IsSameRef ref ref
IsSameRef-refl none = tt
IsSameRef-refl (some ref) = (refl, refl)

IsSameRef-trans : (a b c : Option SecretKeySelector) → IsSameRef a b → IsSameRef b c → IsSameRef a c
IsSameRef-trans none none none h k = tt
IsSameRef-trans (some a) (some b) (some c) h k = (h.0 ∙ k.0, h.1 ∙ k.1)
IsSameRef-trans none none (some c) h k = absurd k
IsSameRef-trans none (some b) c h k = absurd h
IsSameRef-trans (some a) none c h k = absurd h
IsSameRef-trans (some a) (some b) none h k = absurd k

IsSameDatabase-refl : (d : DatabaseSpec) → IsSameDatabase d d
IsSameDatabase-refl d = record { kind = refl; ref = IsSameRef-refl (ref_of d); aws = refl }

IsSameDatabase-trans :
    {a b c : DatabaseSpec} → IsSameDatabase c b → IsSameDatabase b a → IsSameDatabase c a
IsSameDatabase-trans {a} {b} {c} h k = record {
  kind = h.kind ∙ k.kind;
  ref = IsSameRef-trans (ref_of a) (ref_of b) (ref_of c) k.ref h.ref;
  aws = k.aws ∙ h.aws;
}

-- However often an object is updated after its creation, its spec is one that the webhook would let be
-- created, and its database has the type, the reference to a Secret and the AWS configuration that it
-- was created with.
pub History-IsSameDatabase :
    (V : Semver) (F : Floats) {first now : DbUpgrade}
    → History V F first now
    → (validate_upgrade V F now.spec ≡ none) × IsSameDatabase now.spec.database first.spec.database
unfolding validate_create
History-IsSameDatabase V F {first} (created accepted) =
    (accepted, IsSameDatabase-refl first.spec.database)
History-IsSameDatabase V F (updated {old} new before accepted) =
    let (_, same, valid) = (validate_update_iff V F new old).0 accepted in
    (valid, IsSameDatabase-trans same (History-IsSameDatabase V F before).1)
History-IsSameDatabase V F (reported status before) = History-IsSameDatabase V F before
