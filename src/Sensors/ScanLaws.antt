-- ===== src/Sensors/ScanLaws.antt =====
-- sensors/Sensor.cpp, readFpState: what it makes of the texts that the node holds.
use mathlib.Core.List.{append_assoc, append-nil, map-append}
use android_device_realme_sa.Base.{
  All, List, Option-cases, [], ap, arith, false, ltb, map, refl, some, suc, true, ℕ, ◌*◌, ◌++◌, ◌+◌,
  ◌-◌, ◌<◌, ◌==◌, ◌∙◌, ◌∷◌, ◌≡◌,
}
use android_device_realme_sa.Base.Int.{pos, ℤ}
use android_device_realme_sa.Sensors.Scan.{
  assign, c_string, is_digit, is_space, read_fp_state, scan_comma, scan_digits, scan_int, scan_ints,
  scan_nat, scan_sign, skip_space, starts_digit,
}

-- The ASCII code of a digit.
abbrev digit_code : ℕ → ℕ
digit_code d = suc (d + 47)

abbrev digits_text : List ℕ → List ℕ
digits_text = map digit_code

abbrev AllDigits : List ℕ → Type 0
AllDigits = All λ d. d < 10

-- The number that digits stand for, the first one leading, after the number `acc`.
unfoldable pub digits_value : ℕ → List ℕ → ℕ
digits_value acc [] = acc
digits_value acc (d ∷ ds) = digits_value (acc * 10 + d) ds

digit_code-is_digit : (d : ℕ) → d < 10 → is_digit (digit_code d) ≡ true
unfolding is_digit
digit_code-is_digit d h = ground arith

digit_code-value : (d : ℕ) → digit_code d - 48 ≡ d
digit_code-value d = omega arith

digit_code-is_space : (d : ℕ) → d < 10 → is_space (digit_code d) ≡ false
unfolding is_space
digit_code-is_space d h = ground arith

scan_digits-text :
    (acc : ℕ) (ds rest : List ℕ)
    → AllDigits ds
    → starts_digit rest ≡ false
    → scan_digits acc (digits_text ds ++ rest) ≡ (digits_value acc ds, rest)
unfolding scan_digits digits_value starts_digit
scan_digits-text acc [] [] a h = refl
scan_digits-text acc [] (c ∷ cs) a h = rw (h, scan_digits)
scan_digits-text acc (d ∷ ds) rest a h =
    rw (digit_code-is_digit d a.0, scan_digits)
      (rw (digit_code-value d) (scan_digits-text (acc * 10 + d) ds rest a.1 h))

no_sign : (d : ℕ) → ((digit_code d == 45) ≡ false) × ((digit_code d == 43) ≡ false)
no_sign d = ground arith

-- %d reads a non-empty run of digits up to the first other character.
scan_int-text :
    (d : ℕ) (ds rest : List ℕ)
    → AllDigits (d ∷ ds)
    → starts_digit rest ≡ false
    → scan_int (digits_text (d ∷ ds) ++ rest) ≡ some (pos (digits_value 0 (d ∷ ds)), rest)
unfolding scan_int skip_space scan_sign scan_nat starts_digit
scan_int-text d ds rest a h = ground (
  arith,
  digit_code-is_space d a.0,
  digit_code-is_digit d a.0,
  no_sign d,
  scan_digits-text 0 (d ∷ ds) rest a h,
)

-- One conversion and the comma after it.
scan_ints-comma :
    (n d : ℕ) (ds rest : List ℕ)
    → AllDigits (d ∷ ds)
    → scan_ints (suc n) (digits_text (d ∷ ds) ++ 44 ∷ rest)
      ≡ pos (digits_value 0 (d ∷ ds)) ∷ scan_ints n rest
unfolding scan_ints scan_comma
scan_ints-comma n d ds rest a =
    rw (scan_int-text d ds (44 ∷ rest) a (unfold starts_digit in refl), scan_ints)

-- The last conversion.
scan_ints-last :
    (d : ℕ) (ds rest : List ℕ)
    → AllDigits (d ∷ ds)
    → starts_digit rest ≡ false
    → scan_ints 1 (digits_text (d ∷ ds) ++ rest) ≡ pos (digits_value 0 (d ∷ ds)) ∷ []
unfolding scan_ints
scan_ints-last d ds rest a h =
    rw (scan_int-text d ds rest a h, scan_ints) (ground (arith, Option-cases (scan_comma rest)))

-- The text of a node, `x,y,state`, each number being a leading digit and more digits, and what
-- follows it.
abbrev pub fp_text : List ℕ → List ℕ → List ℕ → List ℕ → List ℕ
fp_text xs ys states rest =
    digits_text xs ++ 44 ∷ (digits_text ys ++ 44 ∷ (digits_text states ++ rest))

fp_text-append :
    (xs ys states rest more : List ℕ)
    → fp_text xs ys states rest ++ more ≡ fp_text xs ys states (rest ++ more)
fp_text-append xs ys states rest more = simp append_assoc

c_string-digits :
    (ds rest : List ℕ) → c_string (digits_text ds ++ rest) ≡ digits_text ds ++ c_string rest
unfolding c_string
c_string-digits [] rest = refl
c_string-digits (d ∷ ds) rest = ap (λ cs. digit_code d ∷ cs) (c_string-digits ds rest)

c_string-char : (c : ℕ) (rest : List ℕ) → c_string (suc c ∷ rest) ≡ suc c ∷ c_string rest
unfolding c_string
c_string-char c rest = refl

c_string-fp_text :
    (xs ys states rest : List ℕ)
    → c_string (fp_text xs ys states rest) ≡ fp_text xs ys states (c_string rest)
c_string-fp_text xs ys states rest = rw (
  c_string-digits xs,
  c_string-char 43,
  c_string-digits ys,
  c_string-char 43,
  c_string-digits states,
)

-- A non-empty run of digits whose number fits an int; the conversion of a larger one is undefined.
pub record IsNumber (ds : List ℕ) : Type 0 where
  pub first : ℕ
  pub more : List ℕ
  pub shape : ds ≡ first ∷ more
  pub digits : AllDigits ds
  pub fits : digits_value 0 ds < 2147483648

scan_ints-fp_text :
    (xs ys states rest : List ℕ)
    → IsNumber xs
    → IsNumber ys
    → IsNumber states
    → starts_digit rest ≡ false
    → scan_ints 3 (fp_text xs ys states rest)
      ≡ pos (digits_value 0 xs) ∷ pos (digits_value 0 ys) ∷ pos (digits_value 0 states) ∷ []
scan_ints-fp_text (x ∷ xs) (y ∷ ys) (s ∷ ss) rest nx ny ns h =
    scan_ints-comma 2 x xs _ nx.digits
    ∙ ap (λ vs. pos (digits_value 0 (x ∷ xs)) ∷ vs)
        (scan_ints-comma 1 y ys _ ny.digits
          ∙ ap (λ vs. pos (digits_value 0 (y ∷ ys)) ∷ vs) (scan_ints-last s ss rest ns.digits h))
scan_ints-fp_text [] ys states rest nx ny ns h = cc (nx.shape)
scan_ints-fp_text (x ∷ xs) [] states rest nx ny ns h = cc (ny.shape)
scan_ints-fp_text (x ∷ xs) (y ∷ ys) [] rest nx ny ns h = cc (ns.shape)

read_fp_state-fp_text :
    (xs ys states rest bytes garbage : List ℕ) (x y : ℤ)
    → IsNumber xs
    → IsNumber ys
    → IsNumber states
    → bytes ++ garbage ≡ fp_text xs ys states rest
    → starts_digit (c_string rest) ≡ false
    → read_fp_state (record { seek = pos 0; content = some bytes; garbage = garbage }) x y
      ≡ record {
        pressed = ltb 0 (digits_value 0 states);
        screen_x = pos (digits_value 0 xs);
        screen_y = pos (digits_value 0 ys);
      }
unfolding read_fp_state assign
read_fp_state-fp_text xs ys states rest bytes garbage x y nx ny ns e h =
    rw
      (
        e,
        c_string-fp_text xs ys states rest,
        scan_ints-fp_text xs ys states (c_string rest) nx ny ns h,
      )
      (ground arith)

-- Whatever the buffer on the stack held before, the text `x,y,state` with a newline is read back as
-- the numbers that its digits stand for, if they fit an int, and is a press exactly when the state
-- is not 0.
pub read_fp_state-line :
    (xs ys states garbage : List ℕ) (x y : ℤ)
    → IsNumber xs
    → IsNumber ys
    → IsNumber states
    → read_fp_state
        (record {
          seek = pos 0;
          content = some (fp_text xs ys states (10 ∷ []));
          garbage = garbage;
        })
        x
        y
      ≡ record {
        pressed = ltb 0 (digits_value 0 states);
        screen_x = pos (digits_value 0 xs);
        screen_y = pos (digits_value 0 ys);
      }
read_fp_state-line xs ys states garbage x y nx ny ns =
    read_fp_state-fp_text xs ys states (10 ∷ garbage) _ garbage x y nx ny ns
      (fp_text-append xs ys states (10 ∷ []) garbage) (unfold c_string starts_digit in refl)

-- The buffer is not terminated after the bytes that were read: without a newline the state goes on
-- with the digits that the buffer held before, up to the first other character, if the numbers fit an
-- int.
pub read_fp_state-unterminated :
    (xs ys states old more : List ℕ) (x y : ℤ)
    → IsNumber xs
    → IsNumber ys
    → IsNumber (states ++ old)
    → starts_digit (c_string more) ≡ false
    → read_fp_state
        (record {
          seek = pos 0;
          content = some (fp_text xs ys states []);
          garbage = digits_text old ++ more;
        })
        x
        y
      ≡ record {
        pressed = ltb 0 (digits_value 0 (states ++ old));
        screen_x = pos (digits_value 0 xs);
        screen_y = pos (digits_value 0 ys);
      }
read_fp_state-unterminated xs ys states old more x y nx ny ns h =
    read_fp_state-fp_text xs ys (states ++ old) more _ (digits_text old ++ more) x y nx ny ns
      (simp (append_assoc, append-nil, map-append)) h
