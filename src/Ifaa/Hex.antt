-- ===== src/Ifaa/Hex.antt =====
-- IFAAManagerImpl.java: bytes as hexadecimal digits.
use android_device_realme_sa.Base.{
  All, Bool-cases, List, [], ap, arith, if◌then◌else◌, inl, inr, length, ltb, map_option, refl,
  some, ℕ, ◌%◌, ◌*◌, ◌++◌, ◌+◌, ◌-◌, ◌/◌, ◌<◌, ◌∙◌, ◌∷◌, ◌≡◌,
}
use android_device_realme_sa.Base.Int.{negsuc, pos, ℤ}
use android_device_realme_sa.Ifaa.Manager.{
  bytes_to_hex_string, hex_digit, hex_digits, low_byte, to_hex_string,
}

-- Reading back: two digits give a byte, and a byte above 127 is negative.
abbrev digit_value : ℕ → ℕ
digit_value c = if ltb c 58 then c - 48 else c - 87

abbrev signed_byte : ℕ → ℤ
signed_byte w = if ltb w 128 then pos w else negsuc (255 - w)

unfoldable pub read_bytes : List ℕ → List ℤ
read_bytes [] = []
read_bytes (c ∷ []) = []
read_bytes (c ∷ d ∷ cs) = signed_byte (digit_value c * 16 + digit_value d) ∷ read_bytes cs

-- A Java byte.
abbrev pub IsByte : ℤ → Type 0
IsByte (pos n) = n < 128
IsByte (negsuc n) = n < 128

low_byte-bound : (v : ℤ) → low_byte v < 256
low_byte-bound (pos n) = omega arith
low_byte-bound (negsuc n) = omega arith

low_byte-signed : (v : ℤ) → IsByte v → signed_byte (low_byte v) ≡ v
low_byte-signed (pos n) b = let e : n % 256 ≡ n = omega arith in rw e (ground arith)
low_byte-signed (negsuc n) b = let e : n % 256 ≡ n = omega arith in rw e (ground arith)

digit_value-hex_digit : (d : ℕ) → d < 16 → digit_value (hex_digit d) ≡ d
digit_value-hex_digit d h = ground arith

-- The two characters that a byte is written as.
byte_digits : ℕ → List ℕ
byte_digits n = hex_digit (n / 16) ∷ hex_digit (n % 16) ∷ []

padded :
    (n : ℕ)
    → n < 256
    → (if ltb (length (to_hex_string n)) 2 then 48 ∷ to_hex_string n else to_hex_string n)
      ≡ byte_digits n
unfolding to_hex_string byte_digits
padded n h = elim (Bool-cases (ltb n 16)) [
  | inl e ↦
      let small : n < 16 = ground arith in
      let low : n / 16 ≡ 0 = omega (arith, small) in
      let rest : n % 16 ≡ n = omega (arith, small) in rw (e, low, rest) refl
  | inr e ↦ rw e refl
]

byte_digits-value :
    (n : ℕ) → n < 256 → digit_value (hex_digit (n / 16)) * 16 + digit_value (hex_digit (n % 16)) ≡ n
byte_digits-value n h =
    rw (digit_value-hex_digit (n / 16) (omega arith), digit_value-hex_digit (n % 16) (omega arith))
      (omega arith)

read_bytes-hex_digits : (vs : List ℤ) → All IsByte vs → read_bytes (hex_digits vs) ≡ vs
unfolding read_bytes hex_digits byte_digits
read_bytes-hex_digits [] k = refl
read_bytes-hex_digits (v ∷ vs) k =
    let b = low_byte-bound v in
    let first = ap signed_byte (byte_digits-value (low_byte v) b) ∙ low_byte-signed v k.0 in
    ap (λ cs. read_bytes (cs ++ hex_digits vs)) (padded (low_byte v) b)
    ∙ (λ i. first i ∷ read_bytes-hex_digits vs k.1 i)

-- The text of a non-empty array of bytes is read back as that array.
bytes_to_hex_string-read :
    (v : ℤ) (vs : List ℤ)
    → All IsByte (v ∷ vs)
    → map_option read_bytes (bytes_to_hex_string (some (v ∷ vs))) ≡ some (v ∷ vs)
unfolding bytes_to_hex_string
bytes_to_hex_string-read v vs k = ap some (read_bytes-hex_digits (v ∷ vs) k)
