-- ===== src/Tests/Registry.antt =====
-- A server that holds the Jobs of one object, as their names; they have ended.
use automatic_db_upgrades.Common.{
  String, ◌<>◌, true, false, Bool, none, List, [], ◌∷◌, ◌≡◌, ◌⊎◌, inl, inr, refl, sym, ap, ◌∙◌,
  arith, Bool-cases, ==_iff, ◌==◌, ◌&&◌, if◌then◌else◌,
}
use automatic_db_upgrades.Kube.Objects.{Job}
use automatic_db_upgrades.Kube.Meta.{Result, ApiError, ok, err}
use automatic_db_upgrades.Kube.Cluster.{Cluster}
use automatic_db_upgrades.Controller.Jobs.{owns, owner_reference}
use automatic_db_upgrades.Controller.Lifecycle.{Inserted}
use automatic_db_upgrades.Controller.JobStore.{JobStore, owned}
use automatic_db_upgrades.Tests.Server.{by_name}
use automatic_db_upgrades.Tests.Objects.{own_secret, checked, job_of, pod}

-- The Jobs of these names.
unfoldable pub stored : List String → List Job
stored [] = []
stored (n ∷ ns) = job_of n none ∷ stored ns

unfoldable pub without_name : String → List String → List String
without_name gone [] = []
without_name gone (n ∷ ns) = let rest = without_name gone ns in if n == gone then ns else n ∷ rest

-- Whether a Job is one of the object's.
abbrev pub is_ours : Job → Bool
is_ours job = job.namespace == "team" && owns "u1" job.owners

abbrev pub added : Job → List String → List String
added job ns = if is_ours job then job.name ∷ ns else ns

abbrev pub registry : Cluster
registry = record {
  World = List String;
  Selector = Unit;
  as_selector = λ _. ok tt;
  everything = tt;
  get_upgrade = λ _ _ w. (ok checked, w);
  get_secret = λ _ name w. (by_name (ok own_secret) name, w);
  list_jobs = λ namespace w. (ok (if namespace == "team" then stored w else []), w);
  list_pods = λ _ _ w. (ok (pod "app:2.0.0" ∷ []), w);
  create_secret = λ s w. (ok s, w);
  update_secret = λ s w. (ok s, w);
  create_job = λ job w. (none, added job w);
  delete_job = λ job w. (none, without_name job.name w);
  create_event = λ _ w. (none, w);
  update_status = λ _ w. (none, w);
  set_status_condition = λ c cs w. (c ∷ cs, w);
  now = λ w. (0, w);
  new_discovery_client = λ w. (none, w);
  get_api_group_resources = λ w. (none, w);
  new_external_client = λ w. (none, w);
  metrics_for_objects = λ _ _ _ w. (ok [], w);
  metric_for_object = λ _ _ _ _ _ w. (err "no such metric", w);
  external_metrics = λ _ _ _ w. (ok [], w);
  AwsConfig = String;
  empty_config = "";
  load_default_config = λ w. (ok "base", w);
  with_region = λ region cfg. cfg <> region;
  assume_role = λ role _ _ cfg. cfg <> role;
  build_auth_token = λ _ _ _ _ w. (ok "token", w);
}

-- The names that an object sees: all of them or none.
abbrev pub sees : String → String → Bool
sees namespace uid = namespace == "team" && owns uid (owner_reference checked ∷ [])

abbrev pub held : String → String → List String → List String
held namespace uid w = owned uid (if namespace == "team" then stored w else [])

owned-stored :
    (uid : String) (w : List String)
    → owned uid (stored w) ≡ (if owns uid (owner_reference checked ∷ []) then w else [])
unfolding owned stored
owned-stored uid [] = ground arith
owned-stored uid (n ∷ w) = ground (arith, owned-stored uid w)

pub held_lem :
    (namespace uid : String) (w : List String)
    → held namespace uid w ≡ (if sees namespace uid then w else [])
unfolding owned
held_lem namespace uid w = elim (Bool-cases (namespace == "team")) [
  | inl e ↦ rw e (owned-stored uid w)
  | inr e ↦ rw e refl
]

-- Only the object itself sees its Jobs.
sees_iff :
    (namespace uid : String) → sees namespace uid ≡ true → (namespace ≡ "team") × (uid ≡ "u1")
unfolding owns
sees_iff namespace uid e = ground arith

is_ours_iff :
    (job : Job) → is_ours job ≡ true → (job.namespace ≡ "team") × (owns "u1" job.owners ≡ true)
is_ours_iff job e = ground arith

not_added : (job : Job) (w : List String) → is_ours job ≡ false → added job w ≡ w
not_added job w e = rw e refl

without_lem :
    (gone : String) (w : List String)
    → (without_name gone w ≡ w) ⊎ Inserted gone (without_name gone w) w
unfolding without_name
without_lem gone [] = inl refl
without_lem gone (n ∷ w) = elim (Bool-cases (n == gone)) [
  | inl e ↦ rw e (
      inr (record {
        before = [];
        after = w;
        split = refl;
        whole = ap (λ n. n ∷ w) ((==_iff n gone).0 e);
      }))
  | inr e ↦ rw e (elim (without_lem gone w) [
    | inl same ↦ inl (ap (λ ns. n ∷ ns) same)
    | inr ins ↦ inr (record {
      before = n ∷ ins.before;
      after = ins.after;
      split = ap (λ ns. n ∷ ns) ins.split;
      whole = ap (λ ns. n ∷ ns) ins.whole;
    })
  ])
]

pub Inserted-held :
    {n : String} {old new : List String} (namespace uid : String)
    → sees namespace uid ≡ true
    → Inserted n old new
    → Inserted n (held namespace uid old) (held namespace uid new)
Inserted-held {n} {old} {new} namespace uid e ins =
    rw (held_lem namespace uid old, held_lem namespace uid new, e) ins

held-blind :
    (namespace uid : String) (w w' : List String)
    → sees namespace uid ≡ false
    → held namespace uid w ≡ held namespace uid w'
held-blind namespace uid w w' e = rw (held_lem namespace uid w, held_lem namespace uid w', e) refl

pub added_lem :
    (job : Job) (w : List String) → is_ours job ≡ true → Inserted job.name w (added job w)
added_lem job w ours = rw ours (record { before = []; after = w; split = refl; whole = refl })

pub registry-created :
    (job : Job) (namespace uid : String) (w : List String)
    → (held namespace uid (added job w) ≡ held namespace uid w)
      ⊎ ((namespace ≡ job.namespace)
          × (owns uid job.owners ≡ true)
          × Inserted job.name (held namespace uid w) (held namespace uid (added job w)))
registry-created job namespace uid w = elim (Bool-cases (is_ours job)) [
  | inr e ↦ inl (ap (held namespace uid) (not_added job w e))
  | inl ours ↦ elim (Bool-cases (sees namespace uid)) [
    | inr blind ↦ inl (held-blind namespace uid (added job w) w blind)
    | inl seen ↦
        let (placed, same) = sees_iff namespace uid seen in
        let (ours_placed, ours_owned) = is_ours_iff job ours in
        inr (
          placed ∙ sym ours_placed,
          rw same ours_owned,
          Inserted-held namespace uid seen (added_lem job w ours),
        )
  ]
]

pub registry-deleted :
    (job : Job) (namespace uid : String) (w : List String)
    → (held namespace uid (without_name job.name w) ≡ held namespace uid w)
      ⊎ Inserted job.name (held namespace uid (without_name job.name w)) (held namespace uid w)
registry-deleted job namespace uid w = elim (without_lem job.name w) [
  | inl same ↦ inl (ap (held namespace uid) same)
  | inr ins ↦ elim (Bool-cases (sees namespace uid)) [
    | inr blind ↦ inl (held-blind namespace uid (without_name job.name w) w blind)
    | inl seen ↦ inr (Inserted-held namespace uid seen ins)
  ]
]

pub same_jobs :
    (js js' : List Job) → ◌≡◌ {A = Result ApiError (List Job)} (ok js) (ok js') → js' ≡ js
same_jobs js js' e = cc

unfoldable pub registry_jobs : JobStore registry
registry_jobs = record {
  jobs = λ namespace w. if namespace == "team" then stored w else [];
  calm = λ namespace uid. record {
    get_upgrade = λ _ _ _. refl;
    get_secret = λ _ _ _. refl;
    list_jobs = λ _ _. refl;
    list_pods = λ _ _ _. refl;
    create_secret = λ _ _. refl;
    update_secret = λ _ _. refl;
    create_event = λ _ _. refl;
    update_status = λ _ _. refl;
    set_status_condition = λ _ _ _. refl;
    now = λ _. refl;
    new_discovery_client = λ _. refl;
    get_api_group_resources = λ _. refl;
    new_external_client = λ _. refl;
    metrics_for_objects = λ _ _ _ _. refl;
    metric_for_object = λ _ _ _ _ _ _. refl;
    external_metrics = λ _ _ _ _. refl;
    build_auth_token = λ _ _ _ _ _. refl;
  };
  listed = λ namespace uid w js e. ap (owned uid) (same_jobs _ js e);
  created = registry-created;
  deleted = registry-deleted;
}
