-- ===== src/Als/AreaCapture.antt =====
-- als/default/AreaCapture.h and AreaCapture.cpp.
--
-- SurfaceFlinger's client library and the float arithmetic of the result are not part of this
-- repository: `Surface` and `Floats` stand for them. The locked buffer is memory, from the offset of
-- a byte to the byte.
use android_device_realme_sa.Base.{
  Bool, List, Option, [], if◌then◌else◌, none, not, some, suc, true, zero, ℕ, ◌*◌, ◌+◌, ◌||◌, ◌∷◌,
}
use android_device_realme_sa.Base.Int.{ltb_ℤ, negsuc, pos, ℤ}
use android_device_realme_sa.Base.Words.{u32}

pub record Rect : Type 0 where
  pub left : ℤ
  pub top : ℤ
  pub right : ℤ
  pub bottom : ℤ

-- The test of the constructor, which aborts on it.
unfoldable is_invalid : Rect → Bool
is_invalid r =
    ltb_ℤ r.left (pos 0)
    || ltb_ℤ r.top (pos 0)
    || not (ltb_ℤ r.left r.right)
    || not (ltb_ℤ r.top r.bottom)

unfoldable pub construct : Option Rect
unfolding is_invalid
construct =
    let r : Rect = record { left = pos 677; top = pos 19; right = pos 707; bottom = pos 49 } in
    if is_invalid r then none else some r

-- DisplayCaptureArgs, as the code fills it.
pub record CaptureArgs : Type 0 where
  pub display_token : ℕ
  pub pixel_format : ℤ
  pub source_crop : Rect
  pub width : ℤ
  pub height : ℤ
  pub capture_secure_layers : Bool

-- ScreenCaptureResults: the fence, and the buffer once it is locked.
pub record Capture : Type 0 where
  pub fence_ok : Bool
  pub width : ℕ
  pub height : ℕ
  pub stride : ℕ
  pub out : ℕ → ℕ

pub record Surface : Type 0 where
  pub physical_display_ids : List ℕ
  pub physical_display_token : ℕ → ℕ
  pub rgba_8888 : ℤ
  pub rect_width : Rect → ℤ
  pub rect_height : Rect → ℤ
  pub capture_display : CaptureArgs → Bool
  pub wait_for_results : CaptureArgs → Capture

-- float, the conversion of a uint32_t, and the division.
pub record Floats : Type 1 where
  pub F : Type 0
  pub of_u32 : ℕ → F
  pub divide : F → F → F

-- `displayIds[0]`; `none` is the read past the end of an empty vector.
unfoldable pub get_internal_display_token : Surface → Option ℕ
get_internal_display_token env = elim env.physical_display_ids [
  | [] ↦ none
  | id ∷ ids ↦ some (env.physical_display_token id)
]

unfoldable pub capture_args : Surface → Rect → ℕ → CaptureArgs
capture_args env r token = record {
  display_token = token;
  pixel_format = env.rgba_8888;
  source_crop = r;
  width = env.rect_width r;
  height = env.rect_height r;
  capture_secure_layers = true;
}

pub record Sums : Type 0 where
  pub rsum : ℕ
  pub gsum : ℕ
  pub bsum : ℕ

-- `y * (stride * 4) + x * 4` in uint32_t.
unfoldable pub pixel : ℕ → ℕ → ℕ → ℕ
pixel stride y x = u32 (y * (stride * 4) + x * 4)

unfoldable pub add_pixel : (ℕ → ℕ) → ℕ → ℕ → ℕ → Sums → Sums
unfolding pixel
add_pixel out stride y x s = record {
  rsum = u32 (s.rsum + out (pixel stride y x));
  gsum = u32 (s.gsum + out (u32 (pixel stride y x + 1)));
  bsum = u32 (s.bsum + out (u32 (pixel stride y x + 2)));
}

-- The inner loop, with `left` columns to go.
unfoldable pub sum_columns : (ℕ → ℕ) → ℕ → ℕ → ℕ → ℕ → Sums → Sums
unfolding add_pixel
sum_columns out stride y zero x s = s
sum_columns out stride y (suc left) x s =
    sum_columns out stride y left (x + 1) (add_pixel out stride y x s)

-- The outer loop, with `left` rows to go.
unfoldable pub sum_rows : (ℕ → ℕ) → ℕ → ℕ → ℕ → ℕ → Sums → Sums
unfolding sum_columns
sum_rows out stride width zero y s = s
sum_rows out stride width (suc left) y s =
    sum_rows out stride width left (y + 1) (sum_columns out stride y width 0 s)

unfoldable pub sums : Capture → Sums
unfolding sum_rows
sums c = sum_rows c.out c.stride c.width c.height 0 (record { rsum = 0; gsum = 0; bsum = 0 })

module _ (floats : Floats) where
  open floats use {F, of_u32, divide}

  -- AreaRgbCaptureResult
  pub record AreaRgbCaptureResult : Type 0 where
    pub r : F
    pub g : F
    pub b : F

  -- `undefined` is the read past the end of the display list.
  pub data Status : Type 0 where
    ok : AreaRgbCaptureResult → Status
    service_specific_error : ℤ → Status
    undefined : Status

  unfoldable pub measure : Capture → Status
  measure c =
      let n = of_u32 (u32 (c.width * c.height)) in
      let s = sums c in
      if c.fence_ok
      then ok (record {
        r = divide (of_u32 s.rsum) n;
        g = divide (of_u32 s.gsum) n;
        b = divide (of_u32 s.bsum) n;
      })
      else service_specific_error (negsuc 0)

  -- getAreaBrightness, from the display token on.
  unfoldable pub capture_token : Surface → Rect → Option ℕ → Status
  unfolding capture_args
  capture_token env rect none = undefined
  capture_token env rect (some token) =
      let args = capture_args env rect token in
      if env.capture_display args
      then measure (env.wait_for_results args)
      else service_specific_error (negsuc 0)

  unfoldable pub get_area_brightness : Surface → Rect → Status
  unfolding capture_token get_internal_display_token
  get_area_brightness env rect = capture_token env rect (get_internal_display_token env)
