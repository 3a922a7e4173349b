-- ===== src/ChargeSpeed/Decimal.antt =====
-- CoolDownUtils.java: the decimal texts that writeCoolDown writes and readCoolDown reads.
use android_device_realme_sa.Base.{
  All, Bool-cases, List, [], ap, arith, false, get_or_else, if◌then◌else◌, inl, inr, leb, length,
  length-append, ltb, map_option, none, refl, some, suc, true, zero, ℕ, ◌%◌, ◌&&◌, ◌*◌, ◌++◌, ◌+◌,
  ◌-◌, ◌/◌, ◌<◌, ◌==◌, ◌∙◌, ◌∷◌, ◌≡◌,
}
use android_device_realme_sa.Base.Int.{pos, sub_ℕ, ℤ}
use android_device_realme_sa.ChargeSpeed.CoolDown.{
  drop_blanks, first_line, first_word, in_range, is_decimal, parse_digits, parse_int, parse_line,
  parse_unsigned, skip_blanks, to_decimal,
}

abbrev AllDecimal : List ℕ → Type 0
AllDecimal = All λ c. is_decimal c ≡ true

snoc-AllDecimal :
    (cs : List ℕ) (c : ℕ) → AllDecimal cs → is_decimal c ≡ true → AllDecimal (cs ++ c ∷ [])
snoc-AllDecimal [] c k e = (e, tt)
snoc-AllDecimal (d ∷ ds) c k e = (k.0, snoc-AllDecimal ds c k.1 e)

digit-is_decimal : (d : ℕ) → d < 10 → is_decimal (d + 48) ≡ true
digit-is_decimal d h = ground arith

to_decimal-AllDecimal : (fuel n : ℕ) → AllDecimal (to_decimal fuel n)
unfolding to_decimal
to_decimal-AllDecimal zero n = tt
to_decimal-AllDecimal (suc fuel) n = elim (Bool-cases (ltb n 10)) [
  | inl e ↦ rw e (digit-is_decimal n (ground arith), tt)
  | inr e ↦ rw e (
      snoc-AllDecimal (to_decimal fuel (n / 10)) (n % 10 + 48) (to_decimal-AllDecimal fuel (n / 10))
        (digit-is_decimal (n % 10) (omega arith)))
]

-- A last digit.
parse_digits-snoc :
    (acc : ℕ) (cs : List ℕ) (d : ℕ)
    → AllDecimal cs
    → d < 10
    → parse_digits acc (cs ++ (d + 48) ∷ []) ≡ map_option (λ v. v * 10 + d) (parse_digits acc cs)
unfolding parse_digits
parse_digits-snoc acc [] d k h =
    let e : d + 48 - 48 ≡ d = omega arith in rw (digit-is_decimal d h, e) refl
parse_digits-snoc acc (c ∷ cs) d k h = rw (k.0) (parse_digits-snoc (acc * 10 + (c - 48)) cs d k.1 h)

abbrev ten_to : ℕ → ℕ
ten_to zero = 1
ten_to (suc n) = 10 * ten_to n

parse_digits-digit : (n : ℕ) → n < 10 → parse_digits 0 ((n + 48) ∷ []) ≡ some n
parse_digits-digit n h =
    parse_digits-snoc 0 [] n tt h ∙ unfold parse_digits in ap some (omega arith)

parse_digits-to_decimal :
    (fuel n : ℕ) → n < ten_to (suc fuel) → parse_digits 0 (to_decimal (suc fuel) n) ≡ some n
unfolding to_decimal
parse_digits-to_decimal zero n h =
    let small : n < 10 = omega arith in
    let e : ltb n 10 ≡ true = ground arith in rw e (parse_digits-digit n small)
parse_digits-to_decimal (suc fuel) n h = elim (Bool-cases (ltb n 10)) [
  | inl e ↦ rw e (parse_digits-digit n (ground arith))
  | inr e ↦
      let higher = to_decimal (suc fuel) (n / 10) in
      let whole : n / 10 * 10 + n % 10 ≡ n = omega arith in
      rw (e, to_decimal)
        (parse_digits-snoc 0 higher (n % 10) (to_decimal-AllDecimal (suc fuel) (n / 10))
            (omega arith)
          ∙ ap (map_option (λ v. v * 10 + n % 10))
              (parse_digits-to_decimal fuel (n / 10) (omega arith))
          ∙ ap some whole)
]

-- Decimal digits are no white space.
record IsKept (cs : List ℕ) : Type 0 where
  pub start : skip_blanks cs ≡ cs
  pub end : drop_blanks cs ≡ cs
  pub word : first_word cs ≡ cs
  pub line : first_line cs ≡ cs

digits-IsKept : (cs : List ℕ) → AllDecimal cs → IsKept cs
digits-IsKept [] k = record { start = refl; end = refl; word = refl; line = refl }
digits-IsKept (c ∷ cs) k =
    let i = digits-IsKept cs k.1 in
    record {
      start = ground (arith, k.0);
      end = ground (arith, k.0, i.end);
      word = ground (arith, k.0, i.word);
      line = ground (arith, k.0, i.line);
    }

no_sign : (c : ℕ) → is_decimal c ≡ true → ((c == 45) ≡ false) × ((c == 43) ≡ false)
no_sign c h = ground arith

to_decimal-length : (fuel n : ℕ) → 0 < length (to_decimal (suc fuel) n)
unfolding to_decimal
to_decimal-length fuel n = elim (Bool-cases (ltb n 10)) [
  | inl e ↦ rw e (omega arith)
  | inr e ↦ rw e (omega (arith, length-append (to_decimal fuel (n / 10)) ((n % 10 + 48) ∷ [])))
]

parse_int-digits :
    (cs : List ℕ) (n : ℕ)
    → AllDecimal cs
    → 0 < length cs
    → parse_digits 0 cs ≡ some n
    → n < 2147483648
    → parse_int cs ≡ some (pos n)
unfolding parse_int parse_unsigned
parse_int-digits [] n k h e small = absurd (omega arith)
parse_int-digits (c ∷ cs) n k h e small =
    let (no_minus, no_plus) = no_sign c k.0 in
    let fits : (ltb n 2147483648 && leb 0 2147483648) ≡ true = ground arith in
    rw (no_minus, no_plus, e, parse_int)
      (ap (λ b. in_range (if b then sub_ℕ 0 n else pos n)) no_minus
        ∙ ap (λ b. if b then some (pos n) else none) fits)

pub parse_line-to_decimal :
    (n : ℕ) → n < 2147483648 → parse_line (first_line (to_decimal 10 n)) ≡ pos n
unfolding parse_line
parse_line-to_decimal n small =
    let digits = to_decimal-AllDecimal 10 n in
    let kept = digits-IsKept (to_decimal 10 n) digits in
    let number : List ℕ → ℤ = λ cs. get_or_else (parse_int cs) (pos 0) in
    ap (λ cs. number (first_word (drop_blanks (skip_blanks cs)))) kept.line
    ∙ ap (λ cs. number (first_word (drop_blanks cs))) kept.start
    ∙ ap (λ cs. number (first_word cs)) kept.end
    ∙ ap number kept.word
    ∙ ap (λ o. get_or_else o (pos 0))
        (parse_int-digits (to_decimal 10 n) n digits (to_decimal-length 9 n)
          (parse_digits-to_decimal 9 n (omega arith)) small)
