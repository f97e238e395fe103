-- ===== src/Kube/Monad.antt =====
-- Go code that calls the cluster: a step on the state, which is the world and the writes issued so
-- far, the latest first. A run-time panic ends the code and keeps the state.
use automatic_db_upgrades.Common.{List, ◌∷◌}
use automatic_db_upgrades.Kube.Objects.{Secret, Job, ClusterEvent}
use automatic_db_upgrades.Api.Types.{DbUpgrade}

-- The writes that the code sends to the API server.
pub data Write : Type 0 where
  created_secret updated_secret : Secret → Write
  created_job deleted_job : Job → Write
  created_event : ClusterEvent → Write
  updated_status : DbUpgrade → Write

pub record State (W : Type 0) : Type 0 where
  pub world : W
  pub trace : List Write

pub data Outcome {ℓ} (A : Type ℓ) : Type ℓ where
  done : A → Outcome A
  panic : Outcome A

abbrev pub M : Type 0 → Type 0 → Type 0
M W A = State W → Outcome A × State W

module _ {W : Type 0} where
  abbrev pub pure : {A : Type 0} → A → M W A
  pure a s = (done a, s)

  abbrev pub crash : {A : Type 0} → M W A
  crash s = (panic, s)

  abbrev pub and_then : {A B : Type 0} → Outcome A × State W → (A → M W B) → Outcome B × State W
  and_then (done a, s) f = f a s
  and_then (panic, s) f = (panic, s)

  infixl 5 ◌>>=◌ ◌>>◌
  abbrev pub ◌>>=◌ : {A B : Type 0} → M W A → (A → M W B) → M W B
  ◌>>=◌ m f s = and_then (m s) f

  abbrev pub ◌>>◌ : {A B : Type 0} → M W A → M W B → M W B
  m >> k = m >>= λ _. k

  -- A read.
  abbrev pub ask : {A : Type 0} → (W → A × W) → M W A
  ask f s = let r = f s.world in (done r.0, record s { world = r.1 })

  -- A write, which is entered in the trace whatever the server answers.
  abbrev pub send : {A : Type 0} → Write → (W → A × W) → M W A
  send e f s = let r = f s.world in (done r.0, record { world = r.1; trace = e ∷ s.trace })

-- What holds of a run that starts in a state with `I`: `I` again, `Q` of the result, and `X` if the
-- code panics.
abbrev pub Holds {ℓ} :
    {W A : Type 0} → Type ℓ → (State W → Type ℓ) → (A → Type ℓ) → Outcome A × State W → Type ℓ
Holds X I Q (done a, s) = I s × Q a
Holds X I Q (panic, s) = I s × X

abbrev pub Ensures {ℓ} :
    {W A : Type 0} → Type ℓ → (State W → Type ℓ) → M W A → (A → Type ℓ) → Type ℓ
Ensures X I m Q = (s : State _) → I s → Holds X I Q (m s)

module _ {ℓ} {W : Type 0} (X : Type ℓ) (I : State W → Type ℓ) where
  and_then-Holds :
      {A B : Type 0} (P : A → Type ℓ) (Q : B → Type ℓ) (r : Outcome A × State W) (f : A → M W B)
      → Holds X I P r
      → ((a : A) → P a → Ensures X I (f a) Q)
      → Holds X I Q (and_then r f)
  and_then-Holds P Q (done a, s) f (i, p) k = k a p s i
  and_then-Holds P Q (panic, s) f h k = h

  -- The rule for `>>=`: what the first part ensures is what the second may use.
  pub >>=-Ensures :
      {A B : Type 0} (P : A → Type ℓ) (Q : B → Type ℓ) (m : M W A) (f : A → M W B)
      → Ensures X I m P
      → ((a : A) → P a → Ensures X I (f a) Q)
      → Ensures X I (m >>= f) Q
  >>=-Ensures P Q m f h k s i = and_then-Holds P Q (m s) f (h s i) k

  Holds-mono :
      {A : Type 0} (P Q : A → Type ℓ) (r : Outcome A × State W)
      → ((a : A) → P a → Q a)
      → Holds X I P r
      → Holds X I Q r
  Holds-mono P Q (done a, s) k (i, p) = (i, k a p)
  Holds-mono P Q (panic, s) k h = h

  -- A weaker promise.
  pub Ensures_mono :
      {A : Type 0} (P Q : A → Type ℓ) (m : M W A)
      → ((a : A) → P a → Q a)
      → Ensures X I m P
      → Ensures X I m Q
  Ensures_mono P Q m k h s i = Holds-mono P Q (m s) k (h s i)
