-- ===== src/Als/Examples.antt =====
-- als/default/: a capture of two pixels.
use android_device_realme_sa.Base.{[], arith, false, refl, some, true, ℕ, ◌*◌, ◌+◌, ◌∷◌, ◌≡◌}
use android_device_realme_sa.Base.Int.{negsuc, pos, ◌+ℤ◌}
use android_device_realme_sa.Als.AreaCapture.{
  measure, Capture, Floats, Rect, Surface, construct, get_area_brightness, ok,
  service_specific_error, sums,
}
use android_device_realme_sa.Als.Average.{IsMapped, IsSmall, colour_total, sums-colour_total}
use android_device_realme_sa.Als.Brightness.{captured, get_area_brightness-answer}

-- Fractions in place of floats.
abbrev fractions : Floats
fractions = record { F = ℕ × ℕ; of_u32 = λ n. (n, 1); divide = λ a b. (a.0 * b.1, a.1 * b.0) }

-- A row of two pixels in a buffer with a stride of three; every byte is 9.
abbrev two_pixels : Capture
two_pixels = record { fence_ok = true; width = 2; height = 1; stride = 3; out = λ i. 9 }

abbrev screen : Surface
screen = record {
  physical_display_ids = 4 ∷ [];
  physical_display_token = λ id. id + 100;
  rgba_8888 = pos 1;
  rect_width = λ r. r.right +ℤ negsuc 676;
  rect_height = λ r. r.bottom +ℤ negsuc 18;
  capture_display = λ args. true;
  wait_for_results = λ args. two_pixels;
}

abbrev area : Rect
area = record { left = pos 677; top = pos 19; right = pos 707; bottom = pos 49 }

constructed : construct ≡ some area
unfolding construct
constructed = refl

two_pixels-IsMapped : IsMapped two_pixels
two_pixels-IsMapped = omega arith

two_pixels-IsSmall : IsSmall two_pixels
two_pixels-IsSmall = record {
  mapped = two_pixels-IsMapped;
  bytes = λ i. omega arith;
  few = omega arith;
}

sums-colour_total_example :
    ((sums two_pixels).rsum ≡ 18) × ((sums two_pixels).gsum ≡ 18) × ((sums two_pixels).bsum ≡ 18)
unfolding colour_total
sums-colour_total_example = sums-colour_total two_pixels two_pixels-IsMapped

-- The same screen, whose fence fails.
abbrev failing_screen : Surface
failing_screen = record screen { wait_for_results = λ args. record two_pixels { fence_ok = false } }

failing_screen_fails :
    get_area_brightness fractions failing_screen area ≡ service_specific_error (negsuc 0)
unfolding get_area_brightness measure
failing_screen_fails = refl

get_area_brightness-answer_example :
    get_area_brightness fractions screen area
    ≡ ok (record { r = (18, 2); g = (18, 2); b = (18, 2) })
unfolding colour_total captured
get_area_brightness-answer_example =
    get_area_brightness-answer fractions screen area 4 [] refl two_pixels-IsSmall
