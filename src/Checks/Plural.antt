-- ===== src/Checks/Plural.antt =====
-- internal/checks/metrics.go: pluralize and toLower, over bytes. No other code calls them.
use automatic_db_upgrades.Common.{
  ℕ, ◌+◌, Bool, ◌&&◌, Option, none, some, [], ◌∷◌, ◌++◌, leb, eqb, if◌then◌else◌, ◌≡◌, refl, ap,
  arith, Bytes,
}

abbrev is_upper : ℕ → Bool
is_upper c = leb b'A' c && leb c b'Z'

-- One round of the loop.
abbrev lower_byte : ℕ → ℕ
lower_byte c = if is_upper c then c + 32 else c

unfoldable pub to_lower : Bytes → Bytes
to_lower [] = []
to_lower (c ∷ cs) = lower_byte c ∷ to_lower cs

-- `s[len(s)-1]`, if there is one, and `s[:len(s)-1]`
unfoldable pub last : Bytes → Option ℕ
last [] = none
last (c ∷ []) = some c
last (c ∷ d ∷ cs) = last (d ∷ cs)

unfoldable pub without_last : Bytes → Bytes
without_last [] = []
without_last (c ∷ []) = []
without_last (c ∷ d ∷ cs) = c ∷ without_last (d ∷ cs)

abbrev plural : Bytes → Option ℕ → Bytes
plural lower none = lower ++ b's' ∷ []
plural lower (some c) =
    if eqb c b's'
    then lower ++ b'e' ∷ b's' ∷ []
    else if eqb c b'y'
    then without_last lower ++ b'i' ∷ b'e' ∷ b's' ∷ []
    else lower ++ b's' ∷ []

unfoldable pub pluralize : Bytes → Bytes
unfolding to_lower last without_last
pluralize kind = let lower = to_lower kind in plural lower (last lower)

to_lower_idempotent : (s : Bytes) → to_lower (to_lower s) ≡ to_lower s
unfolding to_lower
to_lower_idempotent [] = refl
to_lower_idempotent (c ∷ cs) = ground (arith, to_lower_idempotent cs)

last-append : (s t : Bytes) (c : ℕ) → last t ≡ some c → last (s ++ t) ≡ some c
unfolding last
last-append [] t c h = h
last-append (d ∷ []) [] c h = cc
last-append (d ∷ []) (e ∷ t) c h = h
last-append (d ∷ e ∷ s) t c h = last-append (e ∷ s) t c h

last-plural : (lower : Bytes) (o : Option ℕ) → last (plural lower o) ≡ some b's'
unfolding last
last-plural lower none = last-append lower (b's' ∷ []) b's' refl
last-plural lower (some c) = ground (
  arith,
  last-append lower (b's' ∷ []) b's' refl,
  last-append lower (b'e' ∷ b's' ∷ []) b's' refl,
  last-append (without_last lower) (b'i' ∷ b'e' ∷ b's' ∷ []) b's' refl,
)

-- The plural of a kind ends in 's', and it does not depend on the case of the kind's letters.
pub pluralize_lem :
    (kind : Bytes)
    → (last (pluralize kind) ≡ some b's') × (pluralize (to_lower kind) ≡ pluralize kind)
unfolding pluralize
pluralize_lem kind =
    let lower = to_lower kind in
    (last-plural lower (last lower), ap (λ s. plural s (last s)) (to_lower_idempotent kind))
