-- ===== src/Controller/Tenants.antt =====
-- controllers/dbupgrade_controller.go: the external id that keeps the roles of tenants apart.
use Prim.Native.Char.{Char}
use text.Mathlib.TextLemmas.{nil-append, cons-append, append-ne-nil_of_right_ne-nil}
use automatic_db_upgrades.Common.{
  one_char, text_append, String, code, ◌<>◌, ◌≡◌, ◌≢◌, refl, ap, ◌∙◌, sym, none, some, arith,
  ==_of_ne,
}
use automatic_db_upgrades.Api.Types.{AwsSpec, DbUpgrade}
use automatic_db_upgrades.Api.Validity.{IsFilled}
use automatic_db_upgrades.Checks.Image.{index}
use automatic_db_upgrades.Kube.Cluster.{Cluster}
use automatic_db_upgrades.Aws.Manager.{session}
use automatic_db_upgrades.Controller.Secrets.{external_id, rds_auth_config}

slash-ne : (d : Char) (b : String) → index b'/' (String.◌∷◌ d b) ≡ none → d ≢ "/"
unfolding index
slash-ne d b h e = ground (arith, ap code e)

index-tail : (d : Char) (b : String) → index b'/' (String.◌∷◌ d b) ≡ none → index b'/' b ≡ none
unfolding index
index-tail d b h = ground arith

split_slash :
    (a b n m : String)
    → index b'/' a ≡ none
    → index b'/' b ≡ none
    → a <> String.◌∷◌ "/" n ≡ b <> String.◌∷◌ "/" m
    → (a ≡ b) × (n ≡ m)
unfolding index
split_slash String.[] String.[] n m ha hb e = let e' = simp nil-append at e in (refl, cc e')
split_slash String.[] (String.◌∷◌ d b) n m ha hb e =
    let e' = simp text_append at e in absurd (slash-ne d b hb (cc e'))
split_slash (String.◌∷◌ c a) String.[] n m ha hb e =
    let e' = simp text_append at e in absurd (slash-ne c a ha (cc e'))
split_slash (String.◌∷◌ c a) (String.◌∷◌ d b) n m ha hb e =
    let e' = simp cons-append at e in
    let (same, rest) = split_slash a b n m (index-tail c a ha) (index-tail d b hb) (cc e') in
    (cc (e', same), rest)

-- Two upgrades with the same external id have the same namespace and the same name, if neither
-- namespace has a slash.
pub external_id-injective :
    (C : Cluster) (u v : DbUpgrade)
    → index b'/' u.namespace ≡ none
    → index b'/' v.namespace ≡ none
    → external_id C u ≡ external_id C v
    → (u.namespace ≡ v.namespace) × (u.name ≡ v.name)
external_id-injective C u v hu hv e = split_slash u.namespace v.namespace u.name v.name hu hv (
    ap (λ s. u.namespace <> s) (sym (one_char "/" u.name))
    ∙ e
    ∙ ap (λ s. v.namespace <> s) (one_char "/" v.name))

external_id-ne : (C : Cluster) (u : DbUpgrade) → external_id C u ≢ ""
external_id-ne C u = append-ne-nil_of_right_ne-nil u.namespace (λ e. cc (e, one_char "/" u.name))

-- The credentials of a token for a validated AWS configuration are those of its role, assumed with
-- the external id of the upgrade, in the region of the configuration.
pub session-rds_auth_config :
    (C : Cluster) (u : DbUpgrade) (aws : AwsSpec) (base : C.AwsConfig)
    → IsFilled aws
    → session C (rds_auth_config C u aws) base
      ≡ C.assume_role aws.role_arn
          (some (external_id C u))
          "dbupgrade-operator"
          (C.with_region aws.region base)
unfolding session
session-rds_auth_config C u aws base filled =
    let e1 = ==_of_ne aws.region "" filled.region in
    let e2 = ==_of_ne aws.role_arn "" filled.role_arn in
    let e3 = ==_of_ne (external_id C u) "" (external_id-ne C u) in rw (session, e1, e2, e3) refl
