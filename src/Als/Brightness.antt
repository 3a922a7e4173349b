-- ===== src/Als/Brightness.antt =====
-- als/default/AreaCapture.cpp: what getAreaBrightness answers.
use android_device_realme_sa.Base.{
  Bool, Bool-cases, List, ap, arith, false, if◌then◌else◌, inl, inr, refl, some, true, ℕ, ◌&&◌, ◌*◌,
  ◌∙◌, ◌∷◌, ◌≡◌,
}
use android_device_realme_sa.Base.Int.{negsuc}
use android_device_realme_sa.Base.Words.{u32}
use android_device_realme_sa.Als.AreaCapture.{
  AreaRgbCaptureResult, Capture, Floats, Rect, Status, Surface, capture_args, capture_token,
  get_area_brightness, get_internal_display_token, measure, ok, service_specific_error, sums,
}
use android_device_realme_sa.Als.Average.{IsSmall, colour_total, colour_total-lt, sums-colour_total}

-- The average of one colour, as floats.
abbrev average : (floats : Floats) → Capture → ℕ → floats.F
average floats k c =
    floats.divide (floats.of_u32 (colour_total k c)) (floats.of_u32 (u32 (k.width * k.height)))

-- A capture whose fence has signalled and whose sums fit a uint32_t, as those of the 30 by 30 area
-- do, is measured as the exact sum of each colour divided by the number of pixels.
measure-average :
    (floats : Floats) (k : Capture)
    → IsSmall k
    → k.fence_ok ≡ true
    → measure floats k
      ≡ ok (record { r = average floats k 0; g = average floats k 1; b = average floats k 2 })
unfolding measure
measure-average floats k small ready =
    ap (λ b. if b then ok measured else service_specific_error (negsuc 0)) ready ∙ λ i.
    ok (record { r = channel (red i); g = channel (green i); b = channel (blue i) })
  where
    channel : ℕ → floats.F
    channel n = floats.divide (floats.of_u32 n) (floats.of_u32 (u32 (k.width * k.height)))

    measured : AreaRgbCaptureResult floats
    measured = record {
      r = channel (sums k).rsum;
      g = channel (sums k).gsum;
      b = channel (sums k).bsum;
    }

    red : (sums k).rsum ≡ colour_total k 0
    red = omega (arith, sums-colour_total k small.mapped, colour_total-lt k 0 small)

    green : (sums k).gsum ≡ colour_total k 1
    green = omega (arith, sums-colour_total k small.mapped, colour_total-lt k 1 small)

    blue : (sums k).bsum ≡ colour_total k 2
    blue = omega (arith, sums-colour_total k small.mapped, colour_total-lt k 2 small)

-- What the first physical display shows of the area: the capture of exactly that area at its own size,
-- secure layers included.
unfoldable pub captured : Surface → Rect → ℕ → Capture
captured env rect id = env.wait_for_results (capture_args env rect (env.physical_display_token id))

first_display :
    (env : Surface) (id : ℕ) (ids : List ℕ)
    → env.physical_display_ids ≡ id ∷ ids
    → get_internal_display_token env ≡ some (env.physical_display_token id)
unfolding get_internal_display_token
first_display env id ids e = ground arith

module _ (floats : Floats) (env : Surface) (rect : Rect) (id : ℕ) (ids : List ℕ)
    (displays : env.physical_display_ids ≡ id ∷ ids) where
  from_token :
      get_area_brightness floats env rect
      ≡ capture_token floats env rect (some (env.physical_display_token id))
  unfolding get_area_brightness
  from_token = ap (capture_token floats env rect) (first_display env id ids displays)

  get_area_brightness-average :
      env.capture_display (capture_args env rect (env.physical_display_token id)) ≡ true
      → IsSmall (captured env rect id)
      → (captured env rect id).fence_ok ≡ true
      → let k = captured env rect id in
        get_area_brightness floats env rect
        ≡ ok (record { r = average floats k 0; g = average floats k 1; b = average floats k 2 })
  unfolding captured capture_token
  get_area_brightness-average accepted small ready =
      from_token
      ∙ ap
          (λ b.
            if b then measure floats (captured env rect id) else service_specific_error (negsuc 0))
          accepted
      ∙ measure-average floats (captured env rect id) small ready

  get_area_brightness-failed :
      (env.capture_display (capture_args env rect (env.physical_display_token id))
          && (captured env rect id).fence_ok)
        ≡ false
      → get_area_brightness floats env rect ≡ service_specific_error (negsuc 0)
  unfolding captured capture_token measure
  get_area_brightness-failed failed =
      from_token
      ∙ refused (env.capture_display (capture_args env rect (env.physical_display_token id)))
          (captured env rect id).fence_ok _ failed
    where
      refused :
          (accepted ready : Bool) (s : Status floats)
          → (accepted && ready) ≡ false
          → (if accepted
              then (if ready then s else service_specific_error (negsuc 0))
              else service_specific_error (negsuc 0))
            ≡ service_specific_error (negsuc 0)
      refused true true s e = cc
      refused true false s e = refl
      refused false ready s e = refl

  -- With a display there, and where the sums of the bytes of its capture fit a uint32_t, getAreaBrightness
  -- answers with the average of each colour over the area, if the capture is accepted and its fence
  -- signals, and with the service-specific error -1 if not.
  pub get_area_brightness-answer :
      IsSmall (captured env rect id)
      → let k = captured env rect id in
        let accepted =
          env.capture_display (capture_args env rect (env.physical_display_token id)) in
        get_area_brightness floats env rect ≡ (
          if accepted && k.fence_ok
          then ok
              (record { r = average floats k 0; g = average floats k 1; b = average floats k 2 })
          else service_specific_error (negsuc 0))
  unfolding captured
  get_area_brightness-answer small =
      let accepted = env.capture_display (capture_args env rect (env.physical_display_token id)) in
      elim (Bool-cases accepted) [
        | inl a ↦ elim (Bool-cases (captured env rect id).fence_ok) [
          | inl r ↦ rw (a, r) (get_area_brightness-average a small r)
          | inr r ↦ rw (a, r) (get_area_brightness-failed (rw (a, r) refl))
        ]
        | inr a ↦ rw a (get_area_brightness-failed (rw a refl))
      ]
