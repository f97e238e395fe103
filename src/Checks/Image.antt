-- ===== src/Checks/Image.antt =====
-- internal/checks/version.go, extractVersionFromImage: the version in an image reference.
-- Positions count characters where Go counts bytes; the separators are ASCII, so the parts that
-- are cut out are the same. The regular expression is written as the scanner of its language: each
-- part is greedy, and what may follow it is disjoint from it, so nothing is ever given back.
use mathlib.Core.Option
use automatic_db_upgrades.Common.{
  ℕ, zero, suc, String, code, ◌<>◌, ◌≡◌, refl, Bool, true, false, ◌&&◌, ◌||◌, Option, none, some,
  ltb, leb, eqb, ◌==◌, if◌then◌else◌, String-discrete,
}

-- strings.Index for one character; `none` is -1.
unfoldable pub index : ℕ → String → Option ℕ
index c String.[] = none
index c (String.◌∷◌ d s) =
    let later = Option.map suc (index c s) in if eqb (code d) c then some 0 else later

-- strings.LastIndex for one character.
unfoldable pub last_index : ℕ → String → Option ℕ
last_index c String.[] = none
last_index c (String.◌∷◌ d s) = elim (last_index c s) [
  | some i ↦ some (suc i)
  | none ↦ if eqb (code d) c then some 0 else none
]

-- `s[:n]` and `s[n:]`
unfoldable pub take : ℕ → String → String
take zero s = ""
take (suc n) String.[] = ""
take (suc n) (String.◌∷◌ c s) = String.◌∷◌ c (take n s)

unfoldable pub drop : ℕ → String → String
drop zero s = s
drop (suc n) String.[] = ""
drop (suc n) (String.◌∷◌ c s) = drop n s

abbrev pub is_digit : ℕ → Bool
is_digit c = leb b'0' c && leb c b'9'

-- `[\w.]`
abbrev pub is_word : ℕ → Bool
is_word c =
    is_digit c
    || (leb b'A' c && leb c b'Z')
    || (leb b'a' c && leb c b'z')
    || eqb c b'_'
    || eqb c b'.'

-- The longest prefix of characters that pass the test, and the rest.
unfoldable pub span : (ℕ → Bool) → String → String × String
span p String.[] = ("", "")
span p (String.◌∷◌ c s) =
    let cut = span p s in if p (code c) then (String.◌∷◌ c cut.0, cut.1) else ("", String.◌∷◌ c s)

infixl 5 ◌>>=◌
abbrev ◌>>=◌ {ℓ κ} : {A : Type ℓ} {B : Type κ} → Option A → (A → Option B) → Option B
none >>= f = none
some a >>= f = f a

-- `\d+`
abbrev number : String → Option (String × String)
number s = let cut = span is_digit s in if cut.0 == "" then none else some cut

-- `\.`
abbrev dot : String → Option String
dot String.[] = none
dot (String.◌∷◌ c s) = if eqb (code c) b'.' then some s else none

-- `v?`
abbrev optional_v : String → String × String
optional_v String.[] = ("", "")
optional_v (String.◌∷◌ c s) = if eqb (code c) b'v' then ("v", s) else ("", String.◌∷◌ c s)

-- `(?:-[\w.]+)?` and `(?:\+[\w.]+)?`
abbrev group : ℕ → String → String × String
group lead String.[] = ("", "")
group lead (String.◌∷◌ c s) =
    let cut = span is_word s in
    if eqb (code c) lead && (if cut.0 == "" then false else true)
    then (String.◌∷◌ c cut.0, cut.1)
    else ("", String.◌∷◌ c s)

-- `matches[0]` of `^v?(\d+\.\d+\.\d+(?:-[\w.]+)?(?:\+[\w.]+)?)`
unfoldable pub match_version : String → Option String
unfolding span
match_version tag =
    let (v, s) = optional_v tag in
    do
      (major, s1) ← number s
      s2 ← dot s1
      (minor, s3) ← number s2
      s4 ← dot s3
      (patch, s5) ← number s4
      let pre = group b'-' s5
      let build = group b'+' pre.1
      some (v <> (major <> ("." <> (minor <> ("." <> (patch <> (pre.0 <> build.0)))))))

-- A tag that only starts with a digit is kept as it is.
abbrev starts_with_digit : String → String
starts_with_digit String.[] = ""
starts_with_digit (String.◌∷◌ c s) = if is_digit (code c) then String.◌∷◌ c s else ""

-- The part of the function behind the cut: from a tag to a version.
unfoldable pub tag_version : String → String
unfolding match_version
tag_version tag =
    if tag == "latest" || tag == ""
    then ""
    else elim (match_version tag) [ some v ↦ v | none ↦ starts_with_digit tag ]

-- `tagStart == -1 || tagStart < lastSlash`
abbrev pub has_no_tag : Option ℕ → Option ℕ → Bool
has_no_tag none last_slash = true
has_no_tag (some tag_start) none = false
has_no_tag (some tag_start) (some last_slash) = ltb tag_start last_slash

abbrev pub without_digest : String → String
without_digest image = elim (index b'@' image) [ none ↦ image | some i ↦ take i image ]

abbrev pub cut_tag : String → Option ℕ → Option ℕ → String
cut_tag image none last_slash = ""
cut_tag image (some tag_start) last_slash =
    if has_no_tag (some tag_start) last_slash then "" else tag_version (drop (suc tag_start) image)

unfoldable pub extract_version_from_image : String → String
unfolding index last_index take drop tag_version
extract_version_from_image ref =
    let image = without_digest ref in cut_tag image (last_index b':' image) (last_index b'/' image)

images :
    (extract_version_from_image "nginx:1.21.0" ≡ "1.21.0")
    × (extract_version_from_image "gcr.io/project/app:v2.1.0" ≡ "v2.1.0")
    × (extract_version_from_image "registry.example.com:5000/app:1.0.0-rc1" ≡ "1.0.0-rc1")
    × (extract_version_from_image "localhost:5000/app" ≡ "")
    × (extract_version_from_image "app:latest" ≡ "")
    × (extract_version_from_image "app:1.2.3@sha256:00" ≡ "1.2.3")
    × (extract_version_from_image "app:1.2" ≡ "1.2")
    × (extract_version_from_image "app:1.2.3-+b" ≡ "1.2.3")
    × (extract_version_from_image "app:main" ≡ "")
unfolding extract_version_from_image match_version String-discrete
images = (refl, refl, refl, refl, refl, refl, refl, refl, refl)
