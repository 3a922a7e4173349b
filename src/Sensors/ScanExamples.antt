-- ===== src/Sensors/ScanExamples.antt =====
-- sensors/: texts of the node, read.
use android_device_realme_sa.Base.{[], arith, false, refl, some, true, ◌∷◌, ◌≡◌}
use android_device_realme_sa.Base.Int.{pos}
use android_device_realme_sa.Sensors.Scan.{c_string, read_fp_state, starts_digit}
use android_device_realme_sa.Sensors.ScanLaws.{
  IsNumber, digits_value, fp_text, read_fp_state-line, read_fp_state-unterminated,
}

five-IsNumber : IsNumber (5 ∷ [])
unfolding digits_value
five-IsNumber = record {
  first = 5;
  more = [];
  shape = refl;
  digits = omega arith;
  fits = omega arith;
}

read_fp_state-line_example :
    read_fp_state
      (record {
        seek = pos 0;
        content = some (fp_text (5 ∷ []) (5 ∷ []) (0 ∷ []) (10 ∷ []));
        garbage = 55 ∷ [];
      })
      (pos 0)
      (pos 0)
    ≡ record { pressed = false; screen_x = pos 5; screen_y = pos 5 }
unfolding digits_value
read_fp_state-line_example =
    read_fp_state-line (5 ∷ []) (5 ∷ []) (0 ∷ []) (55 ∷ []) (pos 0) (pos 0) five-IsNumber
      five-IsNumber
      (record { first = 0; more = []; shape = refl; digits = omega arith; fits = omega arith })

-- The node reads "5,5,0" with no newline, and the buffer held a 7 there: a press is seen.
read_fp_state-unterminated_example :
    read_fp_state
      (record {
        seek = pos 0;
        content = some (fp_text (5 ∷ []) (5 ∷ []) (0 ∷ []) []);
        garbage = 55 ∷ 0 ∷ [];
      })
      (pos 0)
      (pos 0)
    ≡ record { pressed = true; screen_x = pos 5; screen_y = pos 5 }
unfolding digits_value
read_fp_state-unterminated_example =
    read_fp_state-unterminated (5 ∷ []) (5 ∷ []) (0 ∷ []) (7 ∷ []) (0 ∷ []) (pos 0) (pos 0)
      five-IsNumber five-IsNumber
      (record { first = 0; more = 7 ∷ []; shape = refl; digits = omega arith; fits = omega arith })
      (unfold c_string starts_digit in refl)
