-- ===== src/Kube/Writes.antt =====
-- Rules for code whose writes all satisfy a predicate `P`, and which panics only if `X` holds: one
-- for each way in which the operator's code is put together. With `X` empty they also exclude a
-- panic.
use automatic_db_upgrades.Common.{◌≡◌, ◌≢◌, subst, All}
use automatic_db_upgrades.Kube.Monad.{
  Write, M, pure, crash, ask, send, ◌>>=◌, State, Outcome, done, panic, Holds, Ensures, >>=-Ensures,
  Ensures_mono,
}

module _ {W : Type 0} (X : Type 0) (P : Write → Type 0) where
  -- A run from a trace of permitted writes ends in one, with a result that satisfies `Q`.
  abbrev pub Writes : {A : Type 0} → M W A → (A → Type 0) → Type 0
  Writes m Q = Ensures X (λ s. All P s.trace) m Q

  pub Writes-pure : {A : Type 0} (Q : A → Type 0) (a : A) → Q a → Writes (pure a) Q
  Writes-pure Q a q s i = (i, q)

  pub Writes-crash : {A : Type 0} (Q : A → Type 0) → X → Writes (crash {A = A}) Q
  Writes-crash Q x s i = (i, x)

  -- A read may use what the world that it sees says.
  pub Writes-ask :
      {A : Type 0} (Q : A → Type 0) (f : W → A × W) → ((w : W) → Q (f w).0) → Writes (ask f) Q
  Writes-ask Q f q s i = (i, q s.world)

  pub Writes-send :
      {A : Type 0} (Q : A → Type 0) (e : Write) (f : W → A × W)
      → P e
      → ((w : W) → Q (f w).0)
      → Writes (send e f) Q
  Writes-send Q e f p q s i = ((p, i), q s.world)

  pub Writes-bind :
      {A B : Type 0} (R : A → Type 0) (Q : B → Type 0) (m : M W A) (f : A → M W B)
      → Writes m R
      → ((a : A) → R a → Writes (f a) Q)
      → Writes (m >>= f) Q
  Writes-bind R Q m f = >>=-Ensures X (λ s. All P s.trace) R Q m f

  pub Writes_mono :
      {A : Type 0} (R Q : A → Type 0) (m : M W A) → ((a : A) → R a → Q a) → Writes m R → Writes m Q
  Writes_mono R Q m = Ensures_mono X (λ s. All P s.trace) R Q m

-- Code that writes nothing, whether it returns or panics.
abbrev pub IsSilent : {W A : Type 0} → M W A → Type 0
IsSilent {W} m = (s : State W) → (m s).1.trace ≡ s.trace

-- No promise about the result.
abbrev pub Any : {A : Type 0} → A → Type 0
Any _ = Unit

done-injective : {A : Type 0} {a b : A} → done a ≡ done b → a ≡ b
done-injective e = cc

-- What such a run gives: its final trace, its result, and that it has one.
module _ {W A : Type 0} (I : State W → Type 0) (Q : A → Type 0) where
  pub Holds-state : (o : Outcome A × State W) → Holds (Unit {0}) I Q o → I o.1
  Holds-state (done a, s) h = h.0
  Holds-state (panic, s) h = h.0

  pub Holds-done : (o : Outcome A × State W) (a : A) → Holds (Unit {0}) I Q o → o.0 ≡ done a → Q a
  Holds-done (done b, s) a h e = subst Q (done-injective e) h.1
  Holds-done (panic, s) a h e = cc

  pub Holds-ne-panic : (o : Outcome A × State W) → Holds ⊥ I Q o → o.0 ≢ panic
  Holds-ne-panic (done a, s) h e = cc
  Holds-ne-panic (panic, s) h e = h.1
