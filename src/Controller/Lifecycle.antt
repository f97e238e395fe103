-- ===== src/Controller/Lifecycle.antt =====
-- controllers/dbupgrade_controller.go: the life of the migration Jobs of an object, without the
-- code. Its state is the list of the names of the Jobs that the object owns.
use automatic_db_upgrades.Common.{
  ℕ, ◌+◌, ◌≤◌, ◌<◌, String, List, [], ◌∷◌, ◌++◌, ◌≡◌, ◌≢◌, refl, sym, subst, arith, length, ◌==◌,
  ==_refl, ==_of_ne, if◌then◌else◌,
}

-- `new` is `old` with `n` somewhere in it.
pub record Inserted (n : String) (old new : List String) : Type 0 where
  pub before : List String
  pub after : List String
  pub split : old ≡ before ++ after
  pub whole : new ≡ before ++ n ∷ after

-- What one reconcile of a DBUpgrade may do to the Jobs of an object: nothing; start the Job of the
-- current spec where there is none, and only for the DBUpgrade itself (`Own`); drop a Job of another
-- spec.
pub data Move (Own : Type 0) (expected : String) : List String → List String → Type 0 where
  stay : {js : List String} → Move Own expected js js
  start : Own → Move Own expected [] (expected ∷ [])
  drop :
      (n : String) {old new : List String}
      → n ≢ expected
      → Inserted n new old
      → Move Own expected old new

-- What others may do: delete Jobs.
pub data Loss : List String → List String → Type 0 where
  keep : {js : List String} → Loss js js
  lose : (n : String) {old new : List String} → Inserted n new old → Loss old new

length-append : (xs ys : List String) → length (xs ++ ys) ≡ length xs + length ys
length-append [] ys = omega arith
length-append (x ∷ xs) ys = ground (arith, length-append xs ys)

length-Inserted :
    {n : String} {old new : List String} → Inserted n old new → length old < length new
length-Inserted {n} ins =
    rw (ins.split, ins.whole)
      (omega (arith, length-append ins.before ins.after, length-append ins.before (n ∷ ins.after)))

append-eq-nil : (xs ys : List String) → [] ≡ xs ++ ys → (xs ≡ []) × (ys ≡ [])
append-eq-nil [] ys e = (refl, sym e)
append-eq-nil (x ∷ xs) ys e = cc

-- The only list that a name makes of an empty one.
pub Inserted-nil : {n : String} {new : List String} → Inserted n [] new → new ≡ n ∷ []
Inserted-nil ins =
    let (no_before, no_after) = append-eq-nil ins.before ins.after ins.split in
    rw (ins.whole, no_before, no_after) refl

module _ {Own : Type 0} {expected : String} where
  pub Move-of_eq : {old new : List String} → new ≡ old → Move Own expected old new
  Move-of_eq {old} e = subst (λ js. Move Own expected old js) (sym e) stay

  pub Move-length :
      {old new : List String} → Move Own expected old new → length old ≤ 1 → length new ≤ 1
  Move-length stay h = h
  Move-length (start _) h = omega arith
  Move-length (drop n other ins) h = omega (arith, length-Inserted ins)

pub Loss-length : {old new : List String} → Loss old new → length old ≤ 1 → length new ≤ 1
Loss-length keep h = h
Loss-length (lose n ins) h = omega (arith, length-Inserted ins)

nil-of_length : (js : List String) → length js ≤ 0 → js ≡ []
nil-of_length [] h = refl
nil-of_length (j ∷ js) h = absurd (omega arith)

-- The only Job of an object, dropped.
pub dropped :
    {n : String} {old new : List String}
    → length old ≤ 1
    → Inserted n new old
    → (new ≡ []) × (old ≡ n ∷ [])
dropped {n} {old} {new} one ins =
    let empty = nil-of_length new (omega (arith, length-Inserted ins)) in
    (empty, Inserted-nil (rw empty at ins))

-- How many moves an object's Jobs are away from the Job of its spec.
unfoldable pub moves_left : String → List String → ℕ
moves_left expected [] = 1
moves_left expected (j ∷ _) = if j == expected then 0 else 2

pub moves_left_bound : (expected : String) (js : List String) → moves_left expected js ≤ 2
unfolding moves_left
moves_left_bound expected [] = omega arith
moves_left_bound expected (j ∷ js) = ground arith

module _ {Own : Type 0} {expected : String} where
  pub Move-moves_left :
      {old new : List String}
      → Move Own expected old new
      → length old ≤ 1
      → new ≢ old
      → moves_left expected new < moves_left expected old
  unfolding moves_left
  Move-moves_left stay one other = absurd (other refl)
  Move-moves_left (start _) one other = rw ==_refl (omega arith)
  Move-moves_left (drop n stale ins) one other =
      let (empty, single) = dropped one ins in rw (empty, single, ==_of_ne _ _ stale) (omega arith)

  -- The Job of the current spec is not given up.
  pub Move-settled :
      {new : List String} → Move Own expected (expected ∷ []) new → new ≡ expected ∷ []
  Move-settled move = go move refl
    where
      go :
          {old new : List String}
          → Move Own expected old new
          → old ≡ expected ∷ []
          → new ≡ expected ∷ []
      go stay e = e
      go (start _) e = cc
      go (drop n stale ins) e =
          let (_, single) = dropped (rw e (omega arith)) ins in absurd (stale cc)
