-- ===== src/Aws/Encoding.antt =====
-- internal/aws/rds_auth.go: what a reader of the connection URLs finds in them. RFC 3986 has the user
-- and the password in front of the first '@', apart by the first ':', each with escapes of '%' and two
-- digits; a '+' there is a '+', other than in a query.
use Prim.Native.Char.{Char, char, IsScalar}
use automatic_db_upgrades.Common.{
  ℕ, ◌+◌, ◌-◌, ◌*◌, ◌/◌, ◌%◌, ◌<◌, String, code, true, false, ◌≡◌, ◌≢◌, inl, inr, ◌∙◌, ap, refl,
  arith, [], ◌∷◌, ◌++◌, ltb, eqb, if◌then◌else◌, All, All-append, Bool-cases, Bytes, bytes, utf8,
  show_ℤ,
}
use automatic_db_upgrades.Aws.Url.{
  RdsAuthConfig, is_unreserved, hex, escape_byte, query_escape, build_postgres_connection_url,
}

-- How far the reader is in an escape: in none, behind '%', behind a first digit.
pub data Pending : Type 0 where
  idle high : Pending
  low : ℕ → Pending

unhex : ℕ → ℕ
unhex h = if ltb h b'A' then h - b'0' else h - 55

-- The percent-decoding of a user or a password, of well-formed input (url.PathUnescape).
unfoldable pub unescape : Pending → Bytes → Bytes
unfolding unhex
unescape p [] = []
unescape idle (c ∷ cs) =
    let escaped = unescape high cs in
    let rest = unescape idle cs in if eqb c b'%' then escaped else c ∷ rest
unescape high (h ∷ cs) = unescape (low (unhex h)) cs
unescape (low n) (l ∷ cs) = (16 * n + unhex l) ∷ unescape idle cs

unhex-hex : (d : ℕ) → d < 16 → unhex (hex d) ≡ d
unfolding unhex
unhex-hex d h = ground arith

unreserved_ne : (c : ℕ) → is_unreserved c ≡ true → (c ≢ b'%') × (c ≢ b'+') × (c ≢ b'@')
unreserved_ne c h = ground arith

-- A space is read back as the '+' that url.QueryEscape writes for it.
abbrev pub plus_for_space : ℕ → ℕ
plus_for_space c = if eqb c 0x20 then b'+' else c

unfoldable pub spaces_as_plus : Bytes → Bytes
spaces_as_plus [] = []
spaces_as_plus (c ∷ cs) = plus_for_space c ∷ spaces_as_plus cs

unreserved-ne-space : (c : ℕ) → is_unreserved c ≡ true → eqb c 0x20 ≡ false
unreserved-ne-space c h = ground arith

unescape-escape_byte :
    (c : ℕ) (cs : Bytes)
    → c < 256
    → unescape idle (escape_byte c ++ cs) ≡ plus_for_space c ∷ unescape idle cs
unfolding unescape
unescape-escape_byte c cs small = elim (Bool-cases (is_unreserved c)) [
  | inl e ↦
      let apart = unreserved_ne c e in
      let plain = unreserved-ne-space c e in rw (e, plain) ground arith
  | inr e ↦ rw e (elim (Bool-cases (eqb c 0x20)) [
    | inl e' ↦ rw e' ground arith
    | inr e' ↦
        let first = unhex-hex (c / 16) ground arith in
        let second = unhex-hex (c % 16) ground arith in rw (e', first, second) ground arith
  ])
]

scalar_lt : (n : ℕ) → IsScalar n → n < 0x110000
scalar_lt n h = ground arith

code_lt : (c : Char) → code c < 0x110000
code_lt (char n h) = scalar_lt n h

utf8-All-lt : (c : ℕ) → c < 0x110000 → All (λ b. b < 256) (utf8 c)
utf8-All-lt c h = ground arith

bytes-All-lt : (s : String) → All (λ b. b < 256) (bytes s)
bytes-All-lt String.[] = tt
bytes-All-lt (String.◌∷◌ c s) =
    All-append (λ b. b < 256) (utf8 (code c)) (bytes s) (utf8-All-lt (code c) (code_lt c))
      (bytes-All-lt s)

-- Reading back what url.QueryEscape wrote gives the bytes that were written, with '+' for each space.
unescape-query_escape :
    (bs : Bytes) → All (λ b. b < 256) bs → unescape idle (query_escape bs) ≡ spaces_as_plus bs
unfolding query_escape unescape spaces_as_plus
unescape-query_escape [] h = refl
unescape-query_escape (b ∷ bs) (small, h) =
    unescape-escape_byte b (query_escape bs) small
    ∙ ap (λ rest. plus_for_space b ∷ rest) (unescape-query_escape bs h)

-- Unreserved bytes are read as they stand.
unescape_plain : (bs : Bytes) → All (λ b. is_unreserved b ≡ true) bs → unescape idle bs ≡ bs
unfolding unescape
unescape_plain [] h = refl
unescape_plain (b ∷ bs) (plain, h) =
    let apart = unreserved_ne b plain in ground (arith, unescape_plain bs h)

unreserved-All-ne : (bs : Bytes) → All (λ b. is_unreserved b ≡ true) bs → All (λ b. b ≢ b':') bs
unreserved-All-ne [] h = tt
unreserved-All-ne (b ∷ bs) (plain, h) = (ground arith, unreserved-All-ne bs h)

escape_byte-All-ne : (c : ℕ) → c < 256 → All (λ b. b ≢ b'@') (escape_byte c)
escape_byte-All-ne c small = elim (Bool-cases (is_unreserved c)) [
  | inl e ↦ let apart = unreserved_ne c e in rw e (apart.2, tt)
  | inr e ↦
      rw e (elim (Bool-cases (eqb c 0x20)) [
        | inl e' ↦ rw e' ground arith
        | inr e' ↦ rw e' ground arith
      ])
]

query_escape-All-ne : (bs : Bytes) → All (λ b. b < 256) bs → All (λ b. b ≢ b'@') (query_escape bs)
unfolding query_escape
query_escape-All-ne [] h = tt
query_escape-All-ne (b ∷ bs) (small, h) =
    All-append (λ b. b ≢ b'@') (escape_byte b) (query_escape bs) (escape_byte-All-ne b small)
      (query_escape-All-ne bs h)

-- The bytes before the first `d`, and those behind it.
cut : ℕ → Bytes → Bytes × Bytes
cut d [] = ([], [])
cut d (c ∷ cs) = let later = cut d cs in if eqb c d then ([], cs) else (c ∷ later.0, later.1)

cut-append : (d : ℕ) (p s : Bytes) → All (λ b. b ≢ d) p → cut d (p ++ (d ∷ s)) ≡ (p, s)
unfolding cut
cut-append d [] s h = ground arith
cut-append d (b ∷ p) s (apart, h) = let later = cut-append d p s h in rw (cut, later) ground arith

-- The user, the password and what follows them in `user:password@rest`.
unfoldable pub credentials : Bytes → Bytes × Bytes × Bytes
unfolding cut unescape
credentials s =
    let (user, behind) = cut b':' s in
    let (password, rest) = cut b'@' behind in (unescape idle user, unescape idle password, rest)

credentials-append :
    (user token : Bytes) (rest : Bytes)
    → All (λ b. is_unreserved b ≡ true) user
    → All (λ b. b < 256) token
    → credentials (user ++ (b':' ∷ (query_escape token ++ (b'@' ∷ rest))))
      ≡ (user, spaces_as_plus token, rest)
unfolding credentials
credentials-append user token rest plain small =
    let apart = unreserved-All-ne user plain in
    let first = cut-append b':' user (query_escape token ++ (b'@' ∷ rest)) apart in
    let second = cut-append b'@' (query_escape token) rest (query_escape-All-ne token small) in
    let third = unescape-query_escape token small in
    let fourth = unescape_plain user plain in rw (first, second, third, fourth) refl

-- Behind its scheme, the Postgres URL holds the user of the configuration, if the user's name consists
-- of letters, digits, '-', '_', '.' and '~', and as the password the token, with '+' for each space: a
-- reader that decodes the user and the password as RFC 3986 has it finds any other character of the
-- token again.
pub build_postgres_connection_url-credentials :
    (cfg : RdsAuthConfig) (token : String)
    → All (λ b. is_unreserved b ≡ true) (bytes cfg.username)
    → (rest : Bytes) × (build_postgres_connection_url cfg token ≡ bytes "postgres://" ++ rest)
      × (credentials rest ≡ (
        bytes cfg.username,
        spaces_as_plus (bytes token),
        bytes cfg.host
            ++ (b':'
                ∷ (bytes (show_ℤ cfg.port)
                    ++ (b'/' ∷ (bytes cfg.db_name ++ bytes "?sslmode=require")))),
      ))
unfolding build_postgres_connection_url
build_postgres_connection_url-credentials cfg token plain =
    (_, refl, credentials-append (bytes cfg.username) (bytes token) _ plain (bytes-All-lt token))
