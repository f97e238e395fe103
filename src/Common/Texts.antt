-- ===== src/Common/Texts.antt =====
-- Go strings: native texts, their UTF-8 bytes, and the decimal form that `%d` prints.
use Prim.Native.Nat.{ℕ, zero, suc, ◌+◌, ◌/◌, ◌%◌}
use Prim.Native.Char.{Char, code}
use Prim.Native.String.{String, ◌++◌ as ◌<>◌}
use text.Mathlib.TextLemmas.{nil-append, cons-append}
use mathlib.Core.Path.{◌≡◌, ◌∙◌, ap}
use mathlib.Core.List.{List, [], ◌∷◌, ◌++◌}
use native.Mathlib.Decide.{ℕ_discrete}
use automatic_db_upgrades.Common.Tests.{ltb, if◌then◌else◌}
use automatic_db_upgrades.Common.Ints.{ℤ, pos, negsuc}

abbrev pub Bytes : Type 0
Bytes = List ℕ

unfoldable pub Bytes-discrete : Discrete Bytes
unfolding ℕ_discrete
Bytes-discrete = hlevel ℕ_discrete

-- The UTF-8 form of one code point.
abbrev pub utf8 : ℕ → Bytes
utf8 c =
    if ltb c 0x80
    then c ∷ []
    else if ltb c 0x800
    then (0xc0 + c / 64) ∷ (0x80 + c % 64) ∷ []
    else if ltb c 0x10000
    then (0xe0 + c / 4096) ∷ (0x80 + c / 64 % 64) ∷ (0x80 + c % 64) ∷ []
    else (0xf0 + c / 262144) ∷ (0x80 + c / 4096 % 64) ∷ (0x80 + c / 64 % 64) ∷ (0x80 + c % 64) ∷ []

-- `[]byte(s)`
abbrev pub bytes : String → Bytes
bytes String.[] = []
bytes (String.◌∷◌ c s) = utf8 (code c) ++ bytes s

-- A digit in base 16 or less.
abbrev pub digit : ℕ → String
digit zero = "0"
digit (suc zero) = "1"
digit (suc (suc zero)) = "2"
digit (suc (suc (suc zero))) = "3"
digit (suc (suc (suc (suc zero)))) = "4"
digit (suc (suc (suc (suc (suc zero))))) = "5"
digit (suc (suc (suc (suc (suc (suc zero)))))) = "6"
digit (suc (suc (suc (suc (suc (suc (suc zero))))))) = "7"
digit (suc (suc (suc (suc (suc (suc (suc (suc zero)))))))) = "8"
digit (suc (suc (suc (suc (suc (suc (suc (suc (suc zero))))))))) = "9"
digit (suc (suc (suc (suc (suc (suc (suc (suc (suc (suc zero)))))))))) = "a"
digit (suc (suc (suc (suc (suc (suc (suc (suc (suc (suc (suc zero))))))))))) = "b"
digit (suc (suc (suc (suc (suc (suc (suc (suc (suc (suc (suc (suc zero)))))))))))) = "c"
digit (suc (suc (suc (suc (suc (suc (suc (suc (suc (suc (suc (suc (suc zero))))))))))))) = "d"
digit (suc (suc (suc (suc (suc (suc (suc (suc (suc (suc (suc (suc (suc (suc zero)))))))))))))) = "e"
digit _ = "f"

-- Digits by rounds; `k` rounds are enough for a number below `base ^ (k + 1)`.
show_rounds : ℕ → ℕ → ℕ → String
show_rounds base zero n = digit (n % base)
show_rounds base (suc k) n =
    let more = show_rounds base k (n / base) <> digit (n % base) in
    if ltb n base then digit n else more

-- `%d` of a number that is not negative, below 10 ^ 40.
unfoldable pub show_ℕ : ℕ → String
unfolding show_rounds
show_ℕ n = show_rounds 10 39 n

-- `%d`
unfoldable pub show_ℤ : ℤ → String
unfolding show_ℕ
show_ℤ (pos n) = show_ℕ n
show_ℤ (negsuc n) = "-" <> show_ℕ (suc n)

-- `%x` of a number that is not negative, below 16 ^ 40.
unfoldable pub show_hex : ℕ → String
unfolding show_rounds
show_hex n = show_rounds 16 39 n

-- `%x` of bytes
unfoldable pub show_hex_bytes : Bytes → String
show_hex_bytes [] = ""
show_hex_bytes (b ∷ bs) = digit (b / 16) <> (digit (b % 16) <> show_hex_bytes bs)

-- The clauses of `◌<>◌`.
pub ruleset text_append = (nil-append, cons-append)

-- A text of one character in front.
pub one_char : (d : Char) (s : String) → (String.◌∷◌ d "") <> s ≡ String.◌∷◌ d s
one_char d s = cons-append d "" s ∙ ap (String.◌∷◌ d) (nil-append s)
