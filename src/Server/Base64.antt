-- ===== src/Server/Base64.antt =====
-- What internal/server uses of encoding/base64: `StdEncoding.EncodeToString` and `DecodeString`,
-- which skips line ends, wants the padding and ignores the bits that are left over.
use nsqlite.Prelude.{
  ℕ, ◌+◌, ◌-◌, ◌*◌, ◌/◌, ◌%◌, ◌<◌, ◌≡◌, refl, Bool, false, ◌&&◌, ◌||◌, List, [], ◌∷◌, Option, none,
  some, Text, arith, ltb, leb, ◌==◌, if◌then◌else◌, All, is_empty, ap, ◌∙◌,
}

abbrev pub pad : ℕ
pad = 61

unfoldable pub digit : ℕ → ℕ
digit n =
    if ltb n 26
    then n + 65
    else if ltb n 52
    then n + 71
    else if ltb n 62
    then n - 52 + 48
    else if n == 62
    then 43
    else 47

unfoldable pub digit_value : ℕ → Option ℕ
digit_value c =
    if leb 65 c && leb c 90
    then some (c - 65)
    else if leb 97 c && leb c 122
    then some (c - 71)
    else if leb 48 c && leb c 57
    then some (c - 48 + 52)
    else if c == 43
    then some 62
    else if c == 47
    then some 63
    else none

unfoldable pub encode_to_string : List ℕ → Text
encode_to_string [] = []
encode_to_string (a ∷ []) = digit (a / 4) ∷ digit (a % 4 * 16) ∷ pad ∷ pad ∷ []
encode_to_string (a ∷ b ∷ []) =
    digit (a / 4) ∷ digit (a % 4 * 16 + b / 16) ∷ digit (b % 16 * 4) ∷ pad ∷ []
encode_to_string (a ∷ b ∷ c ∷ s) =
    digit (a / 4)
    ∷ digit (a % 4 * 16 + b / 16)
    ∷ digit (b % 16 * 4 + c / 64)
    ∷ digit (c % 64)
    ∷ encode_to_string s

abbrev pub is_line_end : ℕ → Bool
is_line_end c = c == 10 || c == 13

unfoldable pub skip_line_ends : Text → Text
skip_line_ends [] = []
skip_line_ends (c ∷ s) = if is_line_end c then skip_line_ends s else c ∷ skip_line_ends s

abbrev pub first_byte : ℕ → ℕ → ℕ
first_byte v w = v * 4 + w / 16

abbrev pub second_byte : ℕ → ℕ → ℕ
second_byte v w = v % 16 * 16 + w / 4

abbrev pub third_byte : ℕ → ℕ → ℕ
third_byte v w = v % 4 * 64 + w

-- The last four digits, padding included, by the values of the first two.
unfoldable pub decode_padded : Option ℕ → Option ℕ → ℕ → ℕ → Option (List ℕ)
decode_padded (some v) (some w) x y =
    if x == pad
    then (if y == pad then some (first_byte v w ∷ []) else none)
    else elim (digit_value x) [
      | none ↦ none
      | some u ↦ if y == pad then some (first_byte v w ∷ second_byte w u ∷ []) else none
    ]
decode_padded _ _ x y = none

unfoldable pub decode_full :
    Option ℕ → Option ℕ → Option ℕ → Option ℕ → Option (List ℕ) → Option (List ℕ)
decode_full (some v) (some w) (some x) (some y) (some rest) =
    some (first_byte v w ∷ second_byte w x ∷ third_byte x y ∷ rest)
decode_full _ _ _ _ _ = none

unfoldable pub decode_quanta : Text → Option (List ℕ)
decode_quanta [] = some []
decode_quanta (a ∷ b ∷ c ∷ d ∷ s) =
    let rest = decode_quanta s in
    if is_empty s && d == pad
    then decode_padded (digit_value a) (digit_value b) c d
    else decode_full (digit_value a) (digit_value b) (digit_value c) (digit_value d) rest
decode_quanta _ = none

unfoldable pub decode_string : Text → Option (List ℕ)
decode_string s = decode_quanta (skip_line_ends s)

abbrev pub IsByte : ℕ → Type 0
IsByte n = n < 256

digit_value-digit : (n : ℕ) → n < 64 → digit_value (digit n) ≡ some n
unfolding digit digit_value
digit_value-digit n h = ground arith

digit_plain : (n : ℕ) → n < 64 → (is_line_end (digit n) ≡ false) × ((digit n == pad) ≡ false)
unfolding digit
digit_plain n h = ground arith

skip-encode :
    (bs : List ℕ) → All IsByte bs → skip_line_ends (encode_to_string bs) ≡ encode_to_string bs
unfolding encode_to_string skip_line_ends
skip-encode [] h = refl
skip-encode (a ∷ []) h = ground (arith, digit_plain (a / 4), digit_plain (a % 4 * 16))
skip-encode (a ∷ b ∷ []) h =
    ground (arith, digit_plain (a / 4), digit_plain (a % 4 * 16 + b / 16), digit_plain (b % 16 * 4))
skip-encode (a ∷ b ∷ c ∷ s) h = ground (
  arith,
  digit_plain (a / 4),
  digit_plain (a % 4 * 16 + b / 16),
  digit_plain (b % 16 * 4 + c / 64),
  digit_plain (c % 64),
  skip-encode s h.1.1.1,
)

decode-encode : (bs : List ℕ) → All IsByte bs → decode_quanta (encode_to_string bs) ≡ some bs
unfolding encode_to_string decode_quanta decode_padded decode_full
decode-encode [] h = refl
decode-encode (a ∷ []) h = ground (arith, digit_value-digit (a / 4), digit_value-digit (a % 4 * 16))
decode-encode (a ∷ b ∷ []) h = ground (
  arith,
  digit_value-digit (a / 4),
  digit_value-digit (a % 4 * 16 + b / 16),
  digit_value-digit (b % 16 * 4),
  digit_plain (b % 16 * 4),
)
decode-encode (a ∷ b ∷ c ∷ s) h = ground (
  arith,
  digit_value-digit (a / 4),
  digit_value-digit (a % 4 * 16 + b / 16),
  digit_value-digit (b % 16 * 4 + c / 64),
  digit_value-digit (c % 64),
  digit_plain (c % 64),
  decode-encode s h.1.1.1,
)

pub decode_string-encode_to_string :
    (bs : List ℕ) → All IsByte bs → decode_string (encode_to_string bs) ≡ some bs
unfolding decode_string
decode_string-encode_to_string bs h = ap decode_quanta (skip-encode bs h) ∙ decode-encode bs h
