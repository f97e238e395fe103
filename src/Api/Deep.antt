-- ===== src/Api/Deep.antt =====
-- What a deep copy is: it holds the same value, in memory that is new.
use mathlib.Core.Path.{ap₂}
use mathlib.Core.List.{Memᴰ}
use automatic_db_upgrades.Common.{
  ℕ, suc, ◌≤◌, ◌<◌, none, some, List, [], ◌∷◌, ◌≡◌, refl, ap, arith, All, All-append,
}
use automatic_db_upgrades.Api.Memory.{
  IsScalar, scalar, Pointer, Slice, Layout, Copy, assigned, pointer, slice, ◌then◌, ◌followed_by◌,
  struct, all_plain, all_addresses, copy_target, copy_all, copy_elements,
}

-- The addresses of a stretch of memory.
abbrev pub Within : ℕ → ℕ → List ℕ → Type 0
Within low high xs = All (λ x. (low ≤ x) × (x < high)) xs

widen :
    {low low' high high' : ℕ} (xs : List ℕ)
    → low' ≤ low
    → high ≤ high'
    → Within low high xs
    → Within low' high' xs
widen [] below above h = tt
widen (x ∷ xs) below above (p, h) = ((omega arith, omega arith), widen xs below above h)

pub record IsDeep {V A : Type 0} (M : Layout V A) (copy : Copy A) : Type 0 where
  pub same : (n : ℕ) (c : A) → M.plain (copy n c).0 ≡ M.plain c
  pub grows : (n : ℕ) (c : A) → n ≤ (copy n c).1
  pub new : (n : ℕ) (c : A) → Within n (copy n c).1 (M.addresses (copy n c).0)

-- Where nothing holds an address, the assignment is a deep copy.
pub scalar-IsDeep : {V : Type 0} (is_scalar : IsScalar V) → IsDeep (scalar is_scalar) assigned
unfolding scalar
scalar-IsDeep is_scalar = record { same = λ n c. refl; grows = λ n c. omega arith; new = λ n c. tt }

module _ {V A : Type 0} {M : Layout V A} {copy : Copy A} (deep : IsDeep M copy) where
  target-same :
      (n : ℕ) (p : Pointer A) → (pointer M).plain (copy_target copy n p).0 ≡ (pointer M).plain p
  target-same n none = refl
  target-same n (some (a, c)) = ap some (deep.same (suc n) c)

  target-grows : (n : ℕ) (p : Pointer A) → n ≤ (copy_target copy n p).1
  target-grows n none = omega arith
  target-grows n (some (a, c)) = omega (arith, deep.grows (suc n) c)

  target-new :
      (n : ℕ) (p : Pointer A)
      → Within n (copy_target copy n p).1 ((pointer M).addresses (copy_target copy n p).0)
  target-new n none = tt
  target-new n (some (a, c)) = (
    (omega arith, omega (arith, deep.grows (suc n) c)),
    widen _ (omega arith) (omega arith) (deep.new (suc n) c),
  )

  pub pointer-IsDeep : IsDeep (pointer M) (copy_target copy)
  pointer-IsDeep = record { same = target-same; grows = target-grows; new = target-new }

  all-same : (n : ℕ) (cs : List A) → all_plain M (copy_all copy n cs).0 ≡ all_plain M cs
  unfolding all_plain copy_all
  all-same n [] = refl
  all-same n (c ∷ cs) = ap₂ ◌∷◌ (deep.same n c) (all-same (copy n c).1 cs)

  all-grows : (n : ℕ) (cs : List A) → n ≤ (copy_all copy n cs).1
  unfolding copy_all
  all-grows n [] = omega arith
  all-grows n (c ∷ cs) = omega (arith, deep.grows n c, all-grows (copy n c).1 cs)

  all-new :
      (n : ℕ) (cs : List A)
      → Within n (copy_all copy n cs).1 (all_addresses M (copy_all copy n cs).0)
  unfolding all_addresses copy_all
  all-new n [] = tt
  all-new n (c ∷ cs) =
      All-append _ (M.addresses (copy n c).0) _
        (widen _ (omega arith) (all-grows (copy n c).1 cs) (deep.new n c))
        (widen _ (deep.grows n c) (omega arith) (all-new (copy n c).1 cs))

  elements-same :
      (n : ℕ) (p : Slice A) → (slice M).plain (copy_elements copy n p).0 ≡ (slice M).plain p
  elements-same n none = refl
  elements-same n (some (a, cs)) = all-same (suc n) cs

  elements-grows : (n : ℕ) (p : Slice A) → n ≤ (copy_elements copy n p).1
  elements-grows n none = omega arith
  elements-grows n (some (a, cs)) = omega (arith, all-grows (suc n) cs)

  elements-new :
      (n : ℕ) (p : Slice A)
      → Within n (copy_elements copy n p).1 ((slice M).addresses (copy_elements copy n p).0)
  elements-new n none = tt
  elements-new n (some (a, cs)) = (
    (omega arith, omega (arith, all-grows (suc n) cs)),
    widen _ (omega arith) (omega arith) (all-new (suc n) cs),
  )

  pub slice-IsDeep : IsDeep (slice M) (copy_elements copy)
  slice-IsDeep = record { same = elements-same; grows = elements-grows; new = elements-new }

  pub struct-IsDeep : {W : Type 0} (f : V → W) → IsDeep (struct f M) copy
  unfolding struct
  struct-IsDeep f = record {
    same = λ n c. ap f (deep.same n c);
    grows = deep.grows;
    new = deep.new;
  }

infixr 20 ◌also◌
pub ◌also◌ :
    {V A W B : Type 0} {M : Layout V A} {N : Layout W B} {f : Copy A} {g : Copy B}
    → IsDeep M f
    → IsDeep N g
    → IsDeep (M then N) (f followed_by g)
◌also◌ {M} {N} {f} {g} left right = record {
  same = λ n c. ap₂ (λ x y. (x, y)) (left.same n c.0) (right.same (f n c.0).1 c.1);
  grows = λ n c. omega (arith, left.grows n c.0, right.grows (f n c.0).1 c.1);
  new = λ n c.
      All-append _ (M.addresses (f n c.0).0) _
        (widen _ (omega arith) (right.grows (f n c.0).1 c.1) (left.new n c.0))
        (widen _ (left.grows n c.0) (omega arith) (right.new (f n c.0).1 c.1));
}

-- A deep copy shares no memory with what was there before.
pub IsDeep-apart :
    {V A : Type 0} {M : Layout V A} {copy : Copy A}
    → IsDeep M copy
    → (n : ℕ) (c : A) (old : List ℕ) → All (λ x. x < n) old
    → All (λ x. ¬ Memᴰ x old) (M.addresses (copy n c).0)
IsDeep-apart {M} {copy} deep n c old before = go _ (M.addresses (copy n c).0) (deep.new n c)
  where
    missing : (x : ℕ) (xs : List ℕ) → n ≤ x → All (λ y. y < n) xs → ¬ Memᴰ x xs
    missing x [] le h m = elim m [ ]
    missing x (y ∷ xs) le (p, h) (Memᴰ.head e) = omega arith
    missing x (y ∷ xs) le (p, h) (Memᴰ.tail m) = missing x xs le h m

    go : (high : ℕ) (xs : List ℕ) → Within n high xs → All (λ x. ¬ Memᴰ x old) xs
    go high [] h = tt
    go high (x ∷ xs) ((le, _), h) = (missing x old le before, go high xs h)
