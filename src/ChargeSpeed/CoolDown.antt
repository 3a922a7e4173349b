-- ===== src/ChargeSpeed/CoolDown.antt =====
-- chargespeed/src/org/lineageos/settings/chargespeed/: CoolDownUtils, onPreferenceChange of
-- ChargingSpeedFragment and BootCompletedReceiver.
--
-- Texts are lists of character codes. Whether a file can be written or read is an argument of each
-- call; a file that fails keeps its text. The views of the preference screen are left out.
use android_device_realme_sa.Base.{
  Bool, List, Option, [], false, get_or_else, if◌then◌else◌, is_empty, is_some, leb, ltb,
  map_option, none, some, suc, true, zero, ℕ, ◌%◌, ◌&&◌, ◌*◌, ◌++◌, ◌+◌, ◌-◌, ◌/◌, ◌==◌, ◌||◌, ◌∷◌,
}
use android_device_realme_sa.Base.Int.{neg_part, pos, pos_part, sub_ℕ, ℤ}

-- The file at one of COOL_DOWN_PATHS.
pub record Node : Type 0 where
  pub exists : Bool
  pub can_write : Bool
  pub contents : List ℕ

-- The nodes in the order of COOL_DOWN_PATHS, and the secure setting.
pub record Device : Type 0 where
  pub nodes : List Node
  pub saved : Option ℤ

abbrev pub first_index : (Node → Bool) → List Node → Option ℕ
first_index p [] = none
first_index p (n ∷ ns) =
    let later = first_index p ns in if p n then some 0 else map_option (λ i. suc i) later

abbrev pub or_else : Option ℕ → Option ℕ → Option ℕ
or_else (some i) other = some i
or_else none other = other

-- The first path that can be written, or else the first that exists.
unfoldable pub get_cool_down_path : Device → Option ℕ
get_cool_down_path d =
    or_else (first_index (λ n. n.exists && n.can_write) d.nodes)
      (first_index (λ n. n.exists) d.nodes)

unfoldable pub is_supported : Device → Bool
unfolding get_cool_down_path
is_supported d = is_some (get_cool_down_path d)

-- Integer.toString of a number with at most `fuel` digits.
unfoldable pub to_decimal : ℕ → ℕ → List ℕ
to_decimal zero n = []
to_decimal (suc fuel) n =
    let higher = to_decimal fuel (n / 10) in
    if ltb n 10 then (n + 48) ∷ [] else higher ++ (n % 10 + 48) ∷ []

abbrev pub is_decimal : ℕ → Bool
is_decimal c = leb 48 c && leb c 57

unfoldable pub parse_digits : ℕ → List ℕ → Option ℕ
parse_digits acc [] = some acc
parse_digits acc (c ∷ cs) =
    let rest = parse_digits (acc * 10 + (c - 48)) cs in if is_decimal c then rest else none

-- Digits, at least one.
unfoldable pub parse_unsigned : List ℕ → Option ℕ
unfolding parse_digits
parse_unsigned [] = none
parse_unsigned (c ∷ cs) = parse_digits 0 (c ∷ cs)

-- A number in the range of int.
abbrev pub in_range : ℤ → Option ℤ
in_range v = if ltb (pos_part v) 2147483648 && leb (neg_part v) 2147483648 then some v else none

-- Integer.parseInt: `none` is a NumberFormatException.
unfoldable pub parse_int : List ℕ → Option ℤ
unfolding parse_unsigned
parse_int [] = none
parse_int (c ∷ cs) = elim (parse_unsigned (if (c == 45) || (c == 43) then cs else c ∷ cs)) [
  | none ↦ none
  | some n ↦ in_range (if c == 45 then sub_ℕ 0 n else pos n)
]

abbrev is_blank : ℕ → Bool
is_blank c = leb c 32

abbrev pub skip_blanks : List ℕ → List ℕ
skip_blanks [] = []
skip_blanks (c ∷ cs) = let rest = skip_blanks cs in if is_blank c then rest else c ∷ cs

abbrev pub drop_blanks : List ℕ → List ℕ
drop_blanks [] = []
drop_blanks (c ∷ cs) =
    let rest = drop_blanks cs in if is_blank c && is_empty rest then [] else c ∷ rest

-- readLine: a line ends before a newline or a carriage return. An empty file has no line, which reads
-- as an empty one does, namely as 0.
abbrev pub first_line : List ℕ → List ℕ
first_line [] = []
first_line (c ∷ cs) = let rest = first_line cs in if (c == 10) || (c == 13) then [] else c ∷ rest

-- The white space `\s`: the blank and the characters from the tab to the carriage return.
abbrev is_white : ℕ → Bool
is_white c = (c == 32) || (leb 9 c && leb c 13)

-- split("\\s+")[0], of a text that begins with no white space.
abbrev pub first_word : List ℕ → List ℕ
first_word [] = []
first_word (c ∷ cs) = let rest = first_word cs in if is_white c then [] else c ∷ rest

-- line.trim().split("\\s+")[0]: trim takes the characters up to the space off both ends.
unfoldable pub parse_line : List ℕ → ℤ
unfolding parse_int
parse_line line = get_or_else (parse_int (first_word (drop_blanks (skip_blanks line)))) (pos 0)

abbrev pub contents_at : ℕ → List Node → List ℕ
contents_at i [] = []
contents_at zero (n ∷ ns) = n.contents
contents_at (suc i) (n ∷ ns) = contents_at i ns

unfoldable pub read_at : Option ℕ → Bool → Device → ℤ
unfolding parse_line
read_at none readable d = pos 0
read_at (some i) false d = pos 0
read_at (some i) true d = parse_line (first_line (contents_at i d.nodes))

unfoldable pub read_cool_down : Bool → Device → ℤ
unfolding get_cool_down_path read_at
read_cool_down readable d = read_at (get_cool_down_path d) readable d

abbrev pub put_text : ℕ → List ℕ → List Node → List Node
put_text i text [] = []
put_text zero text (n ∷ ns) = record n { contents = text } ∷ ns
put_text (suc i) text (n ∷ ns) = n ∷ put_text i text ns

-- A level below 0 is written as 0; an int has at most ten digits.
unfoldable pub write_at : Option ℕ → Bool → ℤ → Device → Bool × Device
unfolding to_decimal
write_at none writable level d = (false, d)
write_at (some i) false level d = (false, d)
write_at (some i) true level d =
    (true, record d { nodes = put_text i (to_decimal 10 (pos_part level)) d.nodes })

unfoldable pub write_cool_down : Bool → ℤ → Device → Bool × Device
unfolding get_cool_down_path write_at
write_cool_down writable level d = write_at (get_cool_down_path d) writable level d

unfoldable pub save_and_apply : Bool → ℤ → Device → Device
unfolding write_cool_down
save_and_apply writable level d =
    (write_cool_down writable level (record d { saved = some level })).1

abbrev pub load_saved : Device → ℤ
load_saved d = get_or_else d.saved (pos 0)

unfoldable pub restore : Bool → Device → Device
unfolding is_supported write_cool_down
restore writable d = if is_supported d then (write_cool_down writable (load_saved d) d).1 else d

-- The part of onPreferenceChange after the text was parsed.
unfoldable pub choose_level : Bool → Option ℤ → Device → Bool × Device
unfolding save_and_apply
choose_level writable none d = (false, d)
choose_level writable (some level) d = (true, save_and_apply writable level d)

-- onPreferenceChange, for the preference of the screen.
unfoldable pub on_preference_change : Bool → List ℕ → Device → Bool × Device
unfolding choose_level parse_int
on_preference_change writable new_value d = choose_level writable (parse_int new_value) d

pub data Action : Type 0 where
  boot_completed locked_boot_completed power_connected other_action : Action

-- BootCompletedReceiver.onReceive: `none` is an intent without an action.
unfoldable pub on_receive : Bool → Option Action → Device → Device
unfolding restore
on_receive writable none d = d
on_receive writable (some boot_completed) d = restore writable d
on_receive writable (some locked_boot_completed) d = restore writable d
on_receive writable (some power_connected) d = restore writable d
on_receive writable (some other_action) d = d
