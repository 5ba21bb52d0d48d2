-- ===== src/Crypto.antt =====
-- src/dbl/util/crypto.cxx. The MD5 digest itself is OpenSSL's: its bytes for a text are a parameter, and
-- the text of hexadecimal digits is made here.
use Prim.Native.String.{◌++◌, len}
use text.Mathlib.TextPositions.{len-append}
use dbl_service.Prelude.{
  ℕ, zero, suc, ◌*◌, ◌/◌, ◌%◌, String, ◌≡◌, refl, List, [], ◌∷◌, arith, ltb, if◌then◌else◌, length,
  All, Bool-cases, inl, inr,
}

abbrev nth : List String → ℕ → String → String
nth [] n d = d
nth (x ∷ xs) zero d = x
nth (x ∷ xs) (suc n) d = nth xs n d

-- std::hex writes small letters.
abbrev digits : List String
digits =
    "0" ∷ "1" ∷ "2" ∷ "3" ∷ "4" ∷ "5" ∷ "6" ∷ "7" ∷ "8" ∷ "9" ∷ "a" ∷ "b" ∷ "c" ∷ "d" ∷ "e" ∷ "f"
    ∷ []

-- One digit of a value below 16.
unfoldable pub hex_digit : ℕ → String
hex_digit n = nth digits n "0"

-- std::hex of an unsigned int that was an unsigned char, so below 256
unfoldable pub hex : ℕ → String
unfolding hex_digit
hex b = if ltb b 16 then hex_digit b else hex_digit (b / 16) ++ hex_digit (b % 16)

-- std::setw(2), std::setfill('0')
unfoldable pub pad : String → String
pad s = if ltb (len s) 2 then "0" ++ s else s

unfoldable pub hex_bytes : List ℕ → String
unfolding hex pad
hex_bytes [] = ""
hex_bytes (b ∷ bs) = pad (hex b) ++ hex_bytes bs

unfoldable pub md5 : (String → List ℕ) → String → String
unfolding hex_bytes
md5 digest input = hex_bytes (digest input)

len-nth :
    (xs : List String) (n : ℕ) (d : String)
    → All (λ x. len x ≡ 1) xs
    → len d ≡ 1
    → len (nth xs n d) ≡ 1
len-nth [] n d h e = e
len-nth (x ∷ xs) zero d h e = h.0
len-nth (x ∷ xs) (suc n) d h e = len-nth xs n d h.1 e

len-hex_digit : (n : ℕ) → len (hex_digit n) ≡ 1
unfolding hex_digit
len-hex_digit n = len-nth digits n "0" (omega arith) refl

-- Each byte is written in two digits, the small ones too.
len-pad-hex : (b : ℕ) → len (pad (hex b)) ≡ 2
len-pad-hex b =
    let low = len-hex_digit (b % 16) in
    let high = len-hex_digit (b / 16) in
    let one = len-hex_digit b in
    unfold pad hex in
    elim (Bool-cases (ltb b 16)) [
      | inl e ↦ rw (e, one) (rw (len-append "0" (hex_digit b), one))
      | inr e ↦
          let both = len-append (hex_digit (b / 16)) (hex_digit (b % 16)) in
          rw (e, both, high, low) (rw (both, high, low))
    ]

len-hex_bytes : (bs : List ℕ) → len (hex_bytes bs) ≡ 2 * length bs
unfolding hex_bytes
len-hex_bytes [] = refl
len-hex_bytes (b ∷ bs) =
    omega (arith, len-append (pad (hex b)) (hex_bytes bs), len-pad-hex b, len-hex_bytes bs)

-- Where the digest has MD5_DIGEST_LENGTH = 16 bytes, the text has 32 characters, leading zeros of the
-- bytes included.
pub len-md5 :
    (digest : String → List ℕ) (s : String) → length (digest s) ≡ 16 → len (md5 digest s) ≡ 32
unfolding md5
len-md5 digest s h = omega (arith, len-hex_bytes (digest s), h)
