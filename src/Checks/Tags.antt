-- ===== src/Checks/Tags.antt =====
-- internal/checks/version.go, extractVersionFromImage: where the tag of an image reference is found.
use Prim.Native.Char.{Char}
use text.Mathlib.TextLemmas.{nil-append, cons-append}
use automatic_db_upgrades.Common.{
  one_char, String, code, ℕ, suc, ◌<◌, ◌≡◌, ◌≢◌, refl, ap, ◌∙◌, sym, ◌<>◌, Option, none, some, true,
  false, ltb, arith, inl, inr, Option-cases,
}
use automatic_db_upgrades.Checks.Image.{
  index, last_index, take, drop, tag_version, without_digest, cut_tag, extract_version_from_image,
}

ltb-true : {a b : ℕ} → a < b → ltb a b ≡ true
ltb-true h = ground arith

ltb-false : {a b : ℕ} → b < a → ltb a b ≡ false
ltb-false h = ground arith

size : String → ℕ
size String.[] = 0
size (String.◌∷◌ c s) = suc (size s)

last_index-lt : (c : ℕ) (s : String) (i : ℕ) → last_index c s ≡ some i → i < size s
unfolding last_index size
last_index-lt c String.[] i e = cc
last_index-lt c (String.◌∷◌ d s) i e = elim (Option-cases (last_index c s)) [
  | inl h ↦ ground arith
  | inr (j, h) ↦ let below = last_index-lt c s j h in ground arith
]

-- The last character that is sought stands at the head of the second part.
last_index-found :
    (c : ℕ) (p : String) (d : Char) (s : String)
    → code d ≡ c
    → last_index c s ≡ none
    → last_index c (p <> String.◌∷◌ d s) ≡ some (size p)
unfolding last_index size
last_index-found c String.[] d s e absent = rw nil-append (rw (last_index, absent) ground arith)
last_index-found c (String.◌∷◌ b p) d s e absent =
    let later = last_index-found c p d s e absent in rw cons-append (rw (last_index, later) refl)

-- It stands in the first part, if anywhere.
last_index-before :
    (c : ℕ) (p : String) (d : Char) (s : String)
    → code d ≢ c
    → last_index c s ≡ none
    → last_index c (p <> String.◌∷◌ d s) ≡ last_index c p
unfolding last_index
last_index-before c String.[] d s e absent = rw nil-append (rw (last_index, absent) ground arith)
last_index-before c (String.◌∷◌ b p) d s e absent =
    let later = last_index-before c p d s e absent in rw cons-append (rw (last_index, later) refl)

index-found :
    (c : ℕ) (p : String) (d : Char) (s : String)
    → code d ≡ c
    → index c p ≡ none
    → index c (p <> String.◌∷◌ d s) ≡ some (size p)
unfolding index size
index-found c String.[] d s e absent = rw nil-append ground arith
index-found c (String.◌∷◌ b p) d s e absent = elim (Option-cases (index c p)) [
  | inl h ↦ let later = index-found c p d s e h in rw cons-append (rw (index, later) ground arith)
  | inr (j, h) ↦ absurd (ground arith)
]

take-append : (p s : String) → take (size p) (p <> s) ≡ p
unfolding take size
take-append String.[] s = refl
take-append (String.◌∷◌ c p) s = rw (cons-append, take-append p s) refl

drop-append : (p : String) (d : Char) (s : String) → drop (suc (size p)) (p <> String.◌∷◌ d s) ≡ s
unfolding drop size
drop-append String.[] d s = rw nil-append refl
drop-append (String.◌∷◌ c p) d s = rw cons-append (drop-append p d s)

abbrev HasNo : ℕ → String → Type 0
HasNo c s = last_index c s ≡ none

index-none : (c : ℕ) (s : String) → last_index c s ≡ none → index c s ≡ none
unfolding index last_index
index-none c String.[] h = refl
index-none c (String.◌∷◌ d s) h = elim (Option-cases (last_index c s)) [
  | inl e ↦ let later = index-none c s e in ground arith
  | inr (i, e) ↦ absurd (ground arith)
]

without_digest-none : (image : String) → index b'@' image ≡ none → without_digest image ≡ image
without_digest-none image h = rw (without_digest, h) refl

without_digest-found :
    (image : String) (i : ℕ) → index b'@' image ≡ some i → without_digest image ≡ take i image
without_digest-found image i h = rw (without_digest, h) refl

without_digest-append :
    (image digest : String)
    → index b'@' image ≡ none
    → without_digest (image <> ("@" <> digest)) ≡ without_digest image
without_digest-append image digest absent =
    let found = index-found b'@' image "@" digest refl absent in
    rw (one_char "@" digest) (
      without_digest-found (image <> String.◌∷◌ "@" digest) (size image) found
      ∙ take-append image (String.◌∷◌ "@" digest)
      ∙ sym (without_digest-none image absent))

-- What the function makes of an image without a digest.
extract-plain :
    (image : String) (tag_start last_slash : Option ℕ)
    → index b'@' image ≡ none
    → last_index b':' image ≡ tag_start
    → last_index b'/' image ≡ last_slash
    → extract_version_from_image image ≡ cut_tag image tag_start last_slash
unfolding extract_version_from_image
extract-plain image tag_start last_slash plain colon slash =
    ap (λ w. cut_tag w (last_index b':' w) (last_index b'/' w)) (without_digest-none image plain)
    ∙ ap (λ o. cut_tag image o (last_index b'/' image)) colon
    ∙ ap (cut_tag image tag_start) slash

-- A digest changes nothing: the version of `image@digest` is that of `image`, if `image` has no '@'.
pub extract-digest :
    (image digest : String)
    → index b'@' image ≡ none
    → extract_version_from_image (image <> ("@" <> digest)) ≡ extract_version_from_image image
unfolding extract_version_from_image
extract-digest image digest absent =
    ap (λ w. cut_tag w (last_index b':' w) (last_index b'/' w))
      (without_digest-append image digest absent)

-- An image without '@' whose last part, behind a '/', has neither '/' nor ':' has no version: a
-- colon before that slash is the port of a registry.
pub extract-no_tag :
    (path name : String)
    → index b'@' (path <> ("/" <> name)) ≡ none
    → HasNo b'/' name
    → HasNo b':' name
    → extract_version_from_image (path <> ("/" <> name)) ≡ ""
extract-no_tag path name plain no_slash no_colon =
    let image = path <> ("/" <> name) in
    let one = one_char "/" name in
    let slash =
      ap (λ s. last_index b'/' (path <> s)) one
      ∙ last_index-found b'/' path "/" name refl no_slash in
    let colon =
      ap (λ s. last_index b':' (path <> s)) one
      ∙ last_index-before b':' path "/" name (ground arith) no_colon in
    let shape = extract-plain image (last_index b':' path) (some (size path)) plain colon slash in
    elim (Option-cases (last_index b':' path)) [
      | inl h ↦ shape ∙ (rw h refl)
      | inr (i, h) ↦
          let below = last_index-lt b':' path i h in shape ∙ (rw (h, ltb-true below) refl)
    ]

-- The version of an image without '@' that ends in ':' and a tag without '/' and ':' is the
-- version in that tag, whatever colons and slashes stand before.
pub extract-tag :
    (path tag : String)
    → index b'@' (path <> (":" <> tag)) ≡ none
    → HasNo b'/' tag
    → HasNo b':' tag
    → extract_version_from_image (path <> (":" <> tag)) ≡ tag_version tag
extract-tag path tag plain no_slash no_colon =
    let image = path <> (":" <> tag) in
    let one = one_char ":" tag in
    let colon =
      ap (λ s. last_index b':' (path <> s)) one
      ∙ last_index-found b':' path ":" tag refl no_colon in
    let slash =
      ap (λ s. last_index b'/' (path <> s)) one
      ∙ last_index-before b'/' path ":" tag (ground arith) no_slash in
    let shape = extract-plain image (some (size path)) (last_index b'/' path) plain colon slash in
    let cut = ap (λ s. drop (suc (size path)) (path <> s)) one ∙ drop-append path ":" tag in
    elim (Option-cases (last_index b'/' path)) [
      | inl h ↦ shape ∙ (rw (h, cut) refl)
      | inr (i, h) ↦
          let below = last_index-lt b'/' path i h in shape ∙ (rw (h, ltb-false below, cut) refl)
    ]
