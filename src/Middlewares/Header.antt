-- ===== src/Middlewares/Header.antt =====
-- internal/utils/headers.go: ExtractAuthorizationHeader.
use Prim.Native.Char.{code}
use dashboard_site.Common.{
  ℕ, ◌+◌, String, Bool, true, false, ◌&&◌, ◌==◌, Option, none, some, leb, eqb, if◌then◌else◌,
}
use mathlib.Core.Option

-- strings.SplitN(s, " ", 2), none where there is one part
unfoldable pub cut : String → Option (String × String)
cut String.[] = none
cut (String.◌∷◌ c s) =
    let rest = Option.map (λ (p : String × String). (String.◌∷◌ c p.0, p.1)) (cut s) in
    if eqb (code c) b' ' then some ("", s) else rest

lower : ℕ → ℕ
lower c = if leb b'A' c && leb c b'Z' then c + 32 else c

-- strings.EqualFold with a text of ASCII letters other than k and s, which fold with no letter beyond
-- ASCII
unfoldable pub equal_fold : String → String → Bool
unfolding lower
equal_fold String.[] String.[] = true
equal_fold (String.◌∷◌ c s) (String.◌∷◌ d t) =
    eqb (lower (code c)) (lower (code d)) && equal_fold s t
equal_fold _ _ = false

bearer_token : Option (String × String) → Option String
unfolding equal_fold
bearer_token none = none
bearer_token (some (scheme, token)) =
    if equal_fold scheme "Bearer" then (if token == "" then none else some token) else none

-- the token, none where there is an error; an absent header is the empty text
unfoldable pub extract_authorization_header : String → Option String
unfolding bearer_token
extract_authorization_header header = if header == "" then none else bearer_token (cut header)
