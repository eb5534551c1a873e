-- ===== src/Middlewares/Token.antt =====
-- internal/middlewares/require_auth.go: ParseServiceToken and GenerateAPIToken;
-- internal/utils/headers.go: ExtractAuthorizationHeader.
use Prim.Native.Char.{code}
use dashboard_site.Common.{
  ℕ, ◌≡◌, refl, ap, ◌∙◌, String, Bool, true, false, ◌&&◌, ◌==◌, Option, none, some, List, [], ◌∷◌,
  arith, eqb, length, if◌then◌else◌,
}
use mathlib.Core.Option
use dashboard_site.Middlewares.Base64.{
  encode, count, is_decodable, has_dot, count-encode, encode-is_decodable, encode-has_dot,
}

-- argon2 (github.com/go-crypt/crypt): the hash of a text, and whether a text matches a hash; `none` is
-- an error. A text matches its hash.
pub record Hasher : Type 0 where
  pub hash : String → Option String
  pub matches : String → String → Option Bool
  pub hash_matches : (s h : String) → hash s ≡ some h → matches s h ≡ some true

abbrev service_account_token_prefix : String
service_account_token_prefix = "conduit_sa"

-- s + "." + t
unfoldable pub join : String → String → String
join String.[] t = String.◌∷◌ "." t
join (String.◌∷◌ c s) t = String.◌∷◌ c (join s t)

-- strings.Split(s, "."): the first part, and the others
unfoldable pub split : String → String × List String
split String.[] = ("", [])
split (String.◌∷◌ c s) =
    let (part, parts) = split s in
    if eqb (code c) b'.' then ("", part ∷ parts) else (String.◌∷◌ c part, parts)

checked_parts : String × List String → Option (String × String)
checked_parts (prefix, lookup_id ∷ secret ∷ []) =
    if prefix == service_account_token_prefix
      && eqb (count lookup_id) 22
      && eqb (count secret) 43
      && is_decodable lookup_id
      && is_decodable secret
    then some (lookup_id, secret)
    else none
checked_parts _ = none

-- the lookup id and the secret
unfoldable pub parse_service_token : String → Option (String × String)
unfolding checked_parts
parse_service_token s = checked_parts (split s)

pub record Token : Type 0 where
  pub raw : String
  pub lookup_id : String
  pub hashed_secret : String

-- GenerateAPIToken, with the bytes that it draws
unfoldable pub generate_api_token : Hasher → List ℕ → List ℕ → Option Token
generate_api_token h lookup_bytes secret_bytes =
    Option.map
      (λ hashed. record {
        raw = join service_account_token_prefix (join (encode lookup_bytes) (encode secret_bytes));
        lookup_id = encode lookup_bytes;
        hashed_secret = hashed;
      })
      (h.hash (encode secret_bytes))

split-join : (s t : String) → has_dot s ≡ false → split (join s t) ≡ (s, (split t).0 ∷ (split t).1)
unfolding split join has_dot
split-join String.[] t h = refl
split-join (String.◌∷◌ c s) t h =
    let dotless : eqb (code c) b'.' ≡ false = ground arith in
    let rest : has_dot s ≡ false = ground arith in rw (dotless, split-join s t rest) refl

split-whole : (s : String) → has_dot s ≡ false → split s ≡ (s, [])
unfolding split has_dot
split-whole String.[] h = refl
split-whole (String.◌∷◌ c s) h =
    let dotless : eqb (code c) b'.' ≡ false = ground arith in
    let rest : has_dot s ≡ false = ground arith in rw (dotless, split-whole s rest) refl

prefix-has_dot : has_dot service_account_token_prefix ≡ false
unfolding has_dot
prefix-has_dot = refl

-- A token parses to the id and the secret that it was made of, however the 16 and the 32 bytes fall.
pub parse-join :
    (lookup_bytes secret_bytes : List ℕ)
    → length lookup_bytes ≡ 16
    → length secret_bytes ≡ 32
    → parse_service_token (join "conduit_sa" (join (encode lookup_bytes) (encode secret_bytes)))
      ≡ some (encode lookup_bytes, encode secret_bytes)
unfolding parse_service_token
parse-join lookup_bytes secret_bytes h k =
    ap checked_parts (
      split-join service_account_token_prefix (join (encode lookup_bytes) (encode secret_bytes))
        prefix-has_dot
      ∙ ap (λ (p : String × List String). (service_account_token_prefix, p.0 ∷ p.1))
          (split-join (encode lookup_bytes) (encode secret_bytes) (encode-has_dot lookup_bytes)
            ∙ ap (λ (p : String × List String). (encode lookup_bytes, p.0 ∷ p.1))
                (split-whole (encode secret_bytes) (encode-has_dot secret_bytes))))
    ∙ rw
        (
          count-encode lookup_bytes,
          count-encode secret_bytes,
          h,
          k,
          encode-is_decodable lookup_bytes,
          encode-is_decodable secret_bytes,
        )
        refl
