-- ===== src/Sensors/Scan.antt =====
-- sensors/Sensor.cpp, readFpState: the state of the fingerprint node, read as text.
--
-- The characters are bytes. `scan_ints` is what sscanf does with "%d,%d,%d": each %d skips white
-- space, reads an optional sign and as many digits as there are, and a comma must match at once.
use android_device_realme_sa.Base.{
  Bool, List, Option, [], false, if◌then◌else◌, leb, none, some, suc, true, zero, ℕ, ◌&&◌, ◌*◌,
  ◌++◌, ◌+◌, ◌-◌, ◌==◌, ◌||◌, ◌∷◌,
}
use android_device_realme_sa.Base.Int.{eq_ℤ, ltb_ℤ, negsuc, pos, ℤ}

unfoldable pub is_digit : ℕ → Bool
is_digit c = leb 48 c && leb c 57

-- isspace
unfoldable pub is_space : ℕ → Bool
is_space c = (c == 32) || (leb 9 c && leb c 13)

unfoldable pub skip_space : List ℕ → List ℕ
unfolding is_space
skip_space [] = []
skip_space (c ∷ cs) = if is_space c then skip_space cs else c ∷ cs

-- The digits at the front, as a number that goes on from `acc`, and the rest.
unfoldable pub scan_digits : ℕ → List ℕ → ℕ × List ℕ
unfolding is_digit
scan_digits acc [] = (acc, [])
scan_digits acc (c ∷ cs) = elim (is_digit c) [
  | true ↦ scan_digits (acc * 10 + (c - 48)) cs
  | false ↦ (acc, c ∷ cs)
]

unfoldable pub starts_digit : List ℕ → Bool
unfolding is_digit
starts_digit [] = false
starts_digit (c ∷ cs) = is_digit c

-- A number with at least one digit.
unfoldable pub scan_nat : List ℕ → Option (ℕ × List ℕ)
unfolding scan_digits starts_digit
scan_nat cs = if starts_digit cs then some (scan_digits 0 cs) else none

abbrev negate : ℕ → ℤ
negate zero = pos 0
negate (suc n) = negsuc n

abbrev signed : (ℕ → ℤ) → Option (ℕ × List ℕ) → Option (ℤ × List ℕ)
signed f none = none
signed f (some (n, cs)) = some (f n, cs)

unfoldable pub scan_sign : List ℕ → Option (ℤ × List ℕ)
unfolding scan_nat
scan_sign [] = none
scan_sign (c ∷ cs) =
    if c == 45
    then signed negate (scan_nat cs)
    else if c == 43
    then signed pos (scan_nat cs)
    else signed pos (scan_nat (c ∷ cs))

-- %d
unfoldable pub scan_int : List ℕ → Option (ℤ × List ℕ)
unfolding scan_sign skip_space
scan_int cs = scan_sign (skip_space cs)

-- The literal comma of the format.
unfoldable pub scan_comma : List ℕ → Option (List ℕ)
scan_comma [] = none
scan_comma (c ∷ cs) = if c == 44 then some cs else none

-- The text ends at the first 0, as a C string does.
unfoldable pub c_string : List ℕ → List ℕ
c_string [] = []
c_string (zero ∷ cs) = []
c_string (suc c ∷ cs) = suc c ∷ c_string cs

-- What sscanf has assigned, in order; its length is the result of sscanf. (An input that ends before
-- the first conversion gives EOF, which is not 3 either.)
unfoldable pub scan_ints : ℕ → List ℕ → List ℤ
unfolding scan_int scan_comma
scan_ints zero cs = []
scan_ints (suc n) cs = elim (scan_int cs) [
  | none ↦ []
  | some (v, rest) ↦ elim (scan_comma rest) [ none ↦ v ∷ [] | some more ↦ v ∷ scan_ints n more ]
]

-- What the calls on the node give: the result of lseek, the bytes that read() stores or `none` if it
-- fails, and what the rest of the buffer on the stack held before.
pub record FpNode : Type 0 where
  pub seek : ℤ
  pub content : Option (List ℕ)
  pub garbage : List ℕ

-- The result, and the coordinates after the call.
pub record FpState : Type 0 where
  pub pressed : Bool
  pub screen_x : ℤ
  pub screen_y : ℤ

-- The variables after sscanf has assigned a part of them.
unfoldable pub assign : ℤ → ℤ → List ℤ → FpState
assign x y [] = record { pressed = false; screen_x = x; screen_y = y }
assign x y (x' ∷ []) = record { pressed = false; screen_x = x'; screen_y = y }
assign x y (x' ∷ y' ∷ []) = record { pressed = false; screen_x = x'; screen_y = y' }
assign x y (x' ∷ y' ∷ state ∷ rest) = record {
  pressed = ltb_ℤ (pos 0) state;
  screen_x = x';
  screen_y = y';
}

unfoldable pub read_fp_state : FpNode → ℤ → ℤ → FpState
unfolding assign scan_ints c_string
read_fp_state node x y =
    if eq_ℤ node.seek (pos 0)
    then elim node.content [
      | none ↦ record { pressed = false; screen_x = x; screen_y = y }
      | some bytes ↦ assign x y (scan_ints 3 (c_string (bytes ++ node.garbage)))
    ]
    else record { pressed = false; screen_x = x; screen_y = y }
