-- ===== src/Als/Average.antt =====
-- als/default/AreaCapture.cpp: the loops compute the sums of the colours over the captured area.
use native.Mathlib.Nat.{zero-add}
use android_device_realme_sa.Base.{ap, arith, suc, sym, zero, ℕ, ◌*◌, ◌+◌, ◌<◌, ◌∙◌, ◌≡◌, ◌≤◌}
use android_device_realme_sa.Base.Words.{u32}
use android_device_realme_sa.Als.AreaCapture.{
  Capture, Sums, add_pixel, pixel, sum_columns, sum_rows, sums,
}

-- The sum of `n` values of a function, from `i` on.
unfoldable total : (ℕ → ℕ) → ℕ → ℕ → ℕ
total f i zero = 0
total f i (suc n) = f i + total f (i + 1) n

-- The bytes of one colour, 0, 1 or 2 for red, green or blue, at a row and a column of the area.
abbrev colour_at : Capture → ℕ → ℕ → ℕ → ℕ
colour_at k c y x = k.out (y * (k.stride * 4) + x * 4 + c)

abbrev row_total : Capture → ℕ → ℕ → ℕ
row_total k c y = total (colour_at k c y) 0 k.width

-- The sum of one colour over the area.
unfoldable pub colour_total : Capture → ℕ → ℕ
unfolding total
colour_total k c = total (row_total k c) 0 k.height

-- The rows lie in the buffer, and its offsets fit a uint32_t.
pub record IsMapped (k : Capture) : Type 0 where
  pub row_fits : k.width ≤ k.stride
  pub buffer_fits : k.height * (k.stride * 4) < 4294967296

abbrev IsWord : Sums → Type 0
IsWord s = (s.rsum < 4294967296) × (s.gsum < 4294967296) × (s.bsum < 4294967296)

abbrev plus : Sums → (ℕ → ℕ) → Sums
plus s f = record {
  rsum = u32 (s.rsum + f 0);
  gsum = u32 (s.gsum + f 1);
  bsum = u32 (s.bsum + f 2);
}

offset-lt :
    (y x width height stride : ℕ)
    → y < height
    → x < width
    → width ≤ stride
    → y * (stride * 4) + x * 4 + 3 < height * (stride * 4)
offset-lt y x width height stride hy hx fits = grind arith

plus-zero : (s : Sums) → IsWord s → plus s (λ c. 0) ≡ s
plus-zero s w = ground arith

plus-plus : (s : Sums) (f g : ℕ → ℕ) → plus (plus s f) g ≡ plus s (λ c. f c + g c)
plus-plus s f g = ground arith

plus-IsWord : (s : Sums) (f : ℕ → ℕ) → IsWord (plus s f)
plus-IsWord s f = omega arith

module _ (k : Capture) (m : IsMapped k) where
  add_pixel-plus :
      (y x : ℕ) (s : Sums)
      → y < k.height
      → x < k.width
      → add_pixel k.out k.stride y x s ≡ plus s (λ c. colour_at k c y x)
  unfolding add_pixel pixel
  add_pixel-plus y x s hy hx =
      let h = offset-lt y x k.width k.height k.stride hy hx m.row_fits in
      let a : ℕ = y * (k.stride * 4) + x * 4 in
      let e0 : u32 a ≡ a + 0 = omega (arith, h, m.buffer_fits) in
      let e1 : u32 (u32 a + 1) ≡ a + 1 = omega (arith, h, m.buffer_fits) in
      let e2 : u32 (u32 a + 2) ≡ a + 2 = omega (arith, h, m.buffer_fits) in
      λ i. record {
        rsum = u32 (s.rsum + k.out (e0 i));
        gsum = u32 (s.gsum + k.out (e1 i));
        bsum = u32 (s.bsum + k.out (e2 i));
      }

  sum_columns-plus :
      (left y x : ℕ) (s : Sums)
      → y < k.height
      → x + left ≤ k.width
      → IsWord s
      → sum_columns k.out k.stride y left x s ≡ plus s (λ c. total (colour_at k c y) x left)
  unfolding sum_columns total
  sum_columns-plus zero y x s hy hx w = sym (plus-zero s w)
  sum_columns-plus (suc left) y x s hy hx w =
      ap (sum_columns k.out k.stride y left (x + 1)) (add_pixel-plus y x s hy (omega arith))
      ∙ sum_columns-plus left y (x + 1) (plus s (λ c. colour_at k c y x)) hy (omega arith)
          (plus-IsWord s (λ c. colour_at k c y x))
      ∙ plus-plus s (λ c. colour_at k c y x) (λ c. total (colour_at k c y) (x + 1) left)

  sum_rows-plus :
      (left y : ℕ) (s : Sums)
      → y + left ≤ k.height
      → IsWord s
      → sum_rows k.out k.stride k.width left y s ≡ plus s (λ c. total (row_total k c) y left)
  unfolding sum_rows total
  sum_rows-plus zero y s hy w = sym (plus-zero s w)
  sum_rows-plus (suc left) y s hy w =
      ap (sum_rows k.out k.stride k.width left (y + 1))
        (sum_columns-plus k.width y 0 s (omega arith) (omega arith) w)
      ∙ sum_rows-plus left (y + 1) (plus s (λ c. row_total k c y)) (omega arith)
          (plus-IsWord s (λ c. row_total k c y))
      ∙ plus-plus s (λ c. row_total k c y) (λ c. total (row_total k c) (y + 1) left)

  -- The loops give the sums of the three colours over exactly the rows and columns of the area,
  -- modulo 2^32, whatever the padding of the rows and the fourth byte of each pixel hold.
  pub sums-colour_total :
      ((sums k).rsum ≡ u32 (colour_total k 0))
      × ((sums k).gsum ≡ u32 (colour_total k 1))
      × ((sums k).bsum ≡ u32 (colour_total k 2))
  unfolding sums colour_total
  sums-colour_total =
      let e =
        sum_rows-plus k.height 0 (record { rsum = 0; gsum = 0; bsum = 0 }) (omega arith)
          (omega arith) in
      (
        ap (λ (s : Sums). s.rsum) e ∙ rw zero-add,
        ap (λ (s : Sums). s.gsum) e ∙ rw zero-add,
        ap (λ (s : Sums). s.bsum) e ∙ rw zero-add,
      )

-- A sum of bytes.
total-le : (f : ℕ → ℕ) (i n b : ℕ) → ((j : ℕ) → f j ≤ b) → total f i n ≤ n * b
unfolding total
total-le f i zero b h = omega arith
total-le f i (suc n) b h = omega (arith, h i, total-le f (i + 1) n b h)

-- Every byte is below 256, and so many pixels that the sums of their bytes fit a uint32_t.
pub record IsSmall (k : Capture) : Type 0 where
  pub mapped : IsMapped k
  pub bytes : (i : ℕ) → k.out i ≤ 255
  pub few : k.height * (k.width * 255) < 4294967296

pub colour_total-lt : (k : Capture) (c : ℕ) → IsSmall k → colour_total k c < 4294967296
unfolding colour_total
colour_total-lt k c small = omega (
  arith,
  small.few,
  total-le (row_total k c) 0 k.height (k.width * 255)
      (λ y. total-le (colour_at k c y) 0 k.width 255 (λ x. small.bytes _)),
)
