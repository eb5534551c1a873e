-- ===== src/Middlewares/Base64.antt =====
-- base64.RawURLEncoding of Go's package `encoding/base64`, on lists of bytes.
use Prim.Native.Char.{Char, code}
use dashboard_site.Common.{
  ℕ, zero, suc, ◌+◌, ◌*◌, ◌/◌, ◌%◌, ◌≡◌, refl, String, Bool, true, false, not, ◌&&◌, ◌||◌, List, [],
  ◌∷◌, arith, leb, eqb, length, if◌then◌else◌,
}

abbrev alphabet : String
alphabet = "ABCDEFGHIJKLMNOPQRSTUVWXYZabcdefghijklmnopqrstuvwxyz0123456789-_"

nth_char : ℕ → String → Char
nth_char n String.[] = "A"
nth_char zero (String.◌∷◌ c s) = c
nth_char (suc n) (String.◌∷◌ c s) = nth_char n s

digit : ℕ → Char
unfolding nth_char
digit n = nth_char n alphabet

is_digit : Char → Bool
is_digit c =
    (leb b'A' (code c) && leb (code c) b'Z')
    || (leb b'a' (code c) && leb (code c) b'z')
    || (leb b'0' (code c) && leb (code c) b'9')
    || eqb (code c) b'-'
    || eqb (code c) b'_'

pub all_digits : String → Bool
unfolding is_digit
all_digits String.[] = true
all_digits (String.◌∷◌ c s) = is_digit c && all_digits s

-- EncodeToString
unfoldable pub encode : List ℕ → String
unfolding digit
encode [] = ""
encode (a ∷ []) = String.◌∷◌ (digit (a / 4)) (String.◌∷◌ (digit (a % 4 * 16)) "")
encode (a ∷ b ∷ []) =
    String.◌∷◌ (digit (a / 4))
      (String.◌∷◌ (digit (a % 4 * 16 + b / 16)) (String.◌∷◌ (digit (b % 16 * 4)) ""))
encode (a ∷ b ∷ c ∷ bytes) = String.◌∷◌ (digit (a / 4)) (
    String.◌∷◌ (digit (a % 4 * 16 + b / 16))
      (String.◌∷◌ (digit (b % 16 * 4 + c / 64)) (String.◌∷◌ (digit (c % 64)) (encode bytes))))

-- the number of characters
unfoldable pub count : String → ℕ
count String.[] = 0
count (String.◌∷◌ c s) = suc (count s)

unfoldable pub has_dot : String → Bool
has_dot String.[] = false
has_dot (String.◌∷◌ c s) = eqb (code c) b'.' || has_dot s

-- the decoder skips these
is_newline : Char → Bool
is_newline c = eqb (code c) 10 || eqb (code c) 13

strip_newlines : String → String
unfolding is_newline
strip_newlines String.[] = ""
strip_newlines (String.◌∷◌ c s) =
    let rest = strip_newlines s in if is_newline c then rest else String.◌∷◌ c rest

-- whether DecodeString returns no error
unfoldable pub is_decodable : String → Bool
unfolding strip_newlines all_digits count
is_decodable s = let t = strip_newlines s in all_digits t && not (eqb (count t % 4) 1)

nth_char-is_digit : (n : ℕ) (s : String) → all_digits s ≡ true → is_digit (nth_char n s) ≡ true
unfolding nth_char all_digits is_digit
nth_char-is_digit n String.[] h = refl
nth_char-is_digit zero (String.◌∷◌ c s) h = ground arith
nth_char-is_digit (suc n) (String.◌∷◌ c s) h = nth_char-is_digit n s (ground arith)

alphabet-all_digits : all_digits alphabet ≡ true
unfolding all_digits
alphabet-all_digits = refl

digit-is_digit : (n : ℕ) → is_digit (digit n) ≡ true
unfolding digit
digit-is_digit n = nth_char-is_digit n alphabet alphabet-all_digits

all_digits-digit :
    (n : ℕ) (s : String) → all_digits s ≡ true → all_digits (String.◌∷◌ (digit n) s) ≡ true
unfolding all_digits
all_digits-digit n s h = rw (digit-is_digit n, h) refl

all_digits-empty : all_digits "" ≡ true
unfolding all_digits
all_digits-empty = refl

pub encode-all_digits : (bytes : List ℕ) → all_digits (encode bytes) ≡ true
unfolding encode
encode-all_digits [] = all_digits-empty
encode-all_digits (a ∷ []) =
    all_digits-digit (a / 4) _ (all_digits-digit (a % 4 * 16) _ all_digits-empty)
encode-all_digits (a ∷ b ∷ []) =
    all_digits-digit (a / 4) _
      (all_digits-digit (a % 4 * 16 + b / 16) _ (all_digits-digit (b % 16 * 4) _ all_digits-empty))
encode-all_digits (a ∷ b ∷ c ∷ bytes) = all_digits-digit (a / 4) _ (
    all_digits-digit (a % 4 * 16 + b / 16) _ (
      all_digits-digit (b % 16 * 4 + c / 64) _
        (all_digits-digit (c % 64) _ (encode-all_digits bytes))))

pub count-encode : (bytes : List ℕ) → count (encode bytes) ≡ (length bytes * 8 + 5) / 6
unfolding encode count
count-encode [] = refl
count-encode (a ∷ []) = refl
count-encode (a ∷ b ∷ []) = refl
count-encode (a ∷ b ∷ c ∷ bytes) = omega (arith, count-encode bytes)

strip-all_digits : (s : String) → all_digits s ≡ true → strip_newlines s ≡ s
unfolding strip_newlines all_digits is_digit is_newline
strip-all_digits String.[] h = refl
strip-all_digits (String.◌∷◌ c s) h = ground (arith, strip-all_digits s)

-- what EncodeToString writes is decoded again, whatever the bytes
pub encode-is_decodable : (bytes : List ℕ) → is_decodable (encode bytes) ≡ true
unfolding is_decodable
encode-is_decodable bytes =
    rw
      (
        strip-all_digits (encode bytes) (encode-all_digits bytes),
        encode-all_digits bytes,
        count-encode bytes,
      )
      (not_one (length bytes))
  where
    not_one : (n : ℕ) → not (eqb ((n * 8 + 5) / 6 % 4) 1) ≡ true
    not_one n = ground arith

no_dot : (s : String) → all_digits s ≡ true → has_dot s ≡ false
unfolding has_dot all_digits is_digit
no_dot String.[] h = refl
no_dot (String.◌∷◌ c s) h = ground (arith, no_dot s)

pub encode-has_dot : (bytes : List ℕ) → has_dot (encode bytes) ≡ false
encode-has_dot bytes = no_dot (encode bytes) (encode-all_digits bytes)
