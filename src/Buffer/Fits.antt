-- ===== src/Buffer/Fits.antt =====
-- The sizes hold what is put in the buffers, and nothing wraps around, for frames up to a limit.
use nabu_iris.Common.{mul_mono, ℕ, ◌+◌, ◌*◌, ◌/◌, ◌^◌, ◌≤◌, ◌<◌, ◌≡◌, u32, arith, ap, sym, ◌∙◌}
use mathlib.Core.Path.{subst}
use native.Mathlib.Nat.{le_trans}
use nabu_iris.Buffer.{align_u32, div_round_up_u32}
use nabu_iris.Buffer.Decoder.{
  col_array, comv_h264d_colloc, hfi_buffer_comv_h264d, hfi_buffer_comv_h265d,
}
use nabu_iris.Buffer.Yuv.{yuv_buffer_size_nv12, yuv_buffer_size_p010}

-- Two planes of a stride, within 2 ^ 32 bytes.
linear_covers :
    (stride lines half : ℕ)
    → stride ≤ 32768
    → lines ≤ 32768
    → half ≤ 16384
    → stride * lines + stride * half ≤ align_u32 (stride * lines + stride * half) 4096
linear_covers stride lines half s l h =
    omega (arith, mul_mono stride 32768 lines 32768 s l, mul_mono stride 32768 half 16384 s h)

covers :
    (w h stride lines half : ℕ)
    → w ≤ stride
    → h ≤ lines
    → (h + 1) / 2 ≤ half
    → w * h + w * ((h + 1) / 2) ≤ stride * lines + stride * half
covers w h stride lines half s l k =
    omega (arith, mul_mono w stride h lines s l, mul_mono w stride ((h + 1) / 2) half s k)

-- A buffer of a client holds an NV12 frame of up to 32640 by 32640 pixels: its luma, and chroma for
-- every second line, counting the last one of an odd height.
pub nv12_covers :
    (w h : ℕ) → w ≤ 32640 → h ≤ 32640 → w * h + w * ((h + 1) / 2) ≤ yuv_buffer_size_nv12 w h
unfolding yuv_buffer_size_nv12
nv12_covers w h p q =
    le_trans
      (covers w h (align_u32 w 128) (align_u32 h 32) (align_u32 (u32 (h + 1) / 2) 16) (omega arith)
        (omega arith) (omega arith))
      (linear_covers (align_u32 w 128) (align_u32 h 32) (align_u32 (u32 (h + 1) / 2) 16)
        (omega arith) (omega arith) (omega arith))

-- The same for a P010 frame, with two bytes for each sample.
pub p010_covers :
    (w h : ℕ) → w ≤ 16320 → h ≤ 32640 → w * 2 * h + w * 2 * ((h + 1) / 2) ≤ yuv_buffer_size_p010 w h
unfolding yuv_buffer_size_p010
p010_covers w h p q =
    le_trans
      (covers (w * 2) h (align_u32 (w * 2) 128) (align_u32 h 32) (align_u32 (u32 (h + 1) / 2) 16)
        (omega arith) (omega arith) (omega arith))
      (linear_covers (align_u32 (w * 2) 128) (align_u32 h 32) (align_u32 (u32 (h + 1) / 2) 16)
        (omega arith) (omega arith) (omega arith))

-- One array of a row pair: twice its width for each pair, up to the alignment.
col_array_bounds :
    (width rows : ℕ)
    → width ≤ 65536
    → rows ≤ 512
    → (width * ((rows + 1) / 2) * 2 ≤ col_array width rows)
      × (col_array width rows ≤ width * ((rows + 1) / 2) * 2 + 640)
col_array_bounds width rows p q =
    let area = mul_mono width 65536 ((rows + 1) / 2) 256 p (omega arith) in
    (omega (arith, area), omega (arith, area))

rows_covered : (columns rows : ℕ) → 128 * (columns * rows) ≤ columns * 2 ^ 7 * ((rows + 1) / 2) * 2
rows_covered columns rows =
    omega (arith, mul_mono columns columns rows ((rows + 1) / 2 * 2) (omega arith) (omega arith))

-- The wide array of the motion vectors, and the narrow one of the flags.
wide_bounds :
    (columns rows : ℕ)
    → columns ≤ 512
    → rows ≤ 512
    → let size = col_array (align_u32 (columns * 2 ^ 7) 16) rows in
      (128 * (columns * rows) ≤ size) × (size ≤ 33555072)
wide_bounds columns rows p q =
    let exact : align_u32 (columns * 2 ^ 7) 16 ≡ columns * 2 ^ 7 = omega arith in
    let (low, high) = col_array_bounds (columns * 2 ^ 7) rows (omega arith) q in
    let area = mul_mono (columns * 2 ^ 7) 65536 ((rows + 1) / 2) 256 (omega arith) (omega arith) in
    rw exact (le_trans (rows_covered columns rows) low, omega (arith, high, area))

narrow_bound :
    (columns rows : ℕ)
    → columns ≤ 512
    → rows ≤ 512
    → col_array (align_u32 (columns * 2 ^ 2) 16) rows ≤ 1057408
narrow_bound columns rows p q =
    let width : ℕ = align_u32 (columns * 2 ^ 2) 16 in
    let area = mul_mono width 2064 ((rows + 1) / 2) 256 (omega arith) (omega arith) in
    omega (arith, (col_array_bounds width rows (omega arith) q).1, area)

joined_bounds :
    (m a b : ℕ)
    → m ≤ a
    → a ≤ 33555072
    → b ≤ 1057408
    → (m ≤ u32 (a + (b + 256 * 2))) × (u32 (a + (b + 256 * 2)) ≤ 35000000)
joined_bounds m a b p q r = (omega arith, omega arith)

-- The macroblocks of a frame, as two places of the code count them.
blocks_rounded :
    (w h : ℕ)
    → w ≤ 8192
    → h ≤ 8192
    → (w + 15) / 16 * ((h + 15) / 16) ≡ div_round_up_u32 w 16 * div_round_up_u32 h 16
blocks_rounded w h p q =
    let across : (w + 15) / 16 ≡ div_round_up_u32 w 16 = omega arith in
    let down : (h + 15) / 16 ≡ div_round_up_u32 h 16 = omega arith in
    ap (λ x. x * ((h + 15) / 16)) across ∙ ap (λ y. div_round_up_u32 w 16 * y) down

blocks_shifted :
    (w h : ℕ)
    → w ≤ 8192
    → h ≤ 8192
    → (w + 15) / 16 * ((h + 15) / 16) ≡ u32 (w + 15) / 16 * (u32 (h + 15) / 16)
blocks_shifted w h p q =
    let across : (w + 15) / 16 ≡ u32 (w + 15) / 16 = omega arith in
    let down : (h + 15) / 16 ≡ u32 (h + 15) / 16 = omega arith in
    ap (λ x. x * ((h + 15) / 16)) across ∙ ap (λ y. u32 (w + 15) / 16 * y) down

-- The share of one picture buffer, for at most 512 by 512 macroblocks.
colloc_bounds :
    (w h : ℕ)
    → w ≤ 8192
    → h ≤ 8192
    → (128 * ((w + 15) / 16 * ((h + 15) / 16)) ≤ comv_h264d_colloc w h)
      × (comv_h264d_colloc w h ≤ 35000000)
unfolding comv_h264d_colloc
colloc_bounds w h p q =
    let rows : ℕ = div_round_up_u32 h 16 in
    let columns : ℕ = div_round_up_u32 w 16 in
    let (least, most) = wide_bounds columns rows (omega arith) (omega arith) in
    let flags = narrow_bound columns rows (omega arith) (omega arith) in
    let least' : 128 * ((w + 15) / 16 * ((h + 15) / 16))
        ≤ col_array (align_u32 (columns * 2 ^ 7) 16) rows =
      subst (λ (m : ℕ). 128 * m ≤ col_array (align_u32 (columns * 2 ^ 7) 16) rows)
        (sym (blocks_rounded w h p q)) least in
    joined_bounds (128 * ((w + 15) / 16 * ((h + 15) / 16)))
      (col_array (align_u32 (columns * 2 ^ 7) 16) rows)
      (col_array (align_u32 (columns * 2 ^ 2) 16) rows) least' most flags

-- The motion vectors of H.264: for a frame of up to 8192 by 8192 pixels and up to 32 pictures, the
-- buffer has 128 bytes for each macroblock of each picture, and its size is no negative `int`.
pub comv_h264d_holds :
    (w h n : ℕ)
    → w ≤ 8192
    → h ≤ 8192
    → n ≤ 32
    → (128 * ((w + 15) / 16 * ((h + 15) / 16)) * n ≤ hfi_buffer_comv_h264d w h n)
      × (hfi_buffer_comv_h264d w h n < 2 ^ 31)
unfolding hfi_buffer_comv_h264d
comv_h264d_holds w h n p q k =
    let (low, high) = colloc_bounds w h p q in
    let most = mul_mono (comv_h264d_colloc w h) 35000000 n 32 high k in
    let least =
      mul_mono (128 * ((w + 15) / 16 * ((h + 15) / 16))) (comv_h264d_colloc w h) n n low
        (omega arith) in
    (omega (arith, most, least), omega (arith, most))

-- One array of 256 bytes for each macroblock, and so many of them.
per_block :
    (blocks n : ℕ)
    → blocks ≤ 138240
    → n ≤ 32
    → (256 * blocks * n ≤ u32 (align_u32 (blocks * 2 ^ 8) 512 * n + 512))
      × (u32 (align_u32 (blocks * 2 ^ 8) 512 * n + 512) < 2 ^ 31)
per_block blocks n p k =
    let size : ℕ = align_u32 (blocks * 2 ^ 8) 512 in
    let least = mul_mono (256 * blocks) size n n (omega arith) (omega arith) in
    let most = mul_mono size 35390000 n 32 (omega arith) k in
    (omega (arith, least, most), omega (arith, most))

-- The motion vectors of H.265: for a frame of up to 138240 macroblocks, which is the most that a core
-- takes, and up to 32 pictures, the buffer has 256 bytes for each macroblock of each picture, and its
-- size is no negative `int`.
pub comv_h265d_holds :
    (w h n : ℕ)
    → w ≤ 8192
    → h ≤ 8192
    → (w + 15) / 16 * ((h + 15) / 16) ≤ 138240
    → n ≤ 32
    → (256 * ((w + 15) / 16 * ((h + 15) / 16)) * n ≤ hfi_buffer_comv_h265d w h n)
      × (hfi_buffer_comv_h265d w h n < 2 ^ 31)
unfolding hfi_buffer_comv_h265d
comv_h265d_holds w h n p q m k =
    let size = λ (blocks : ℕ). u32 (align_u32 (blocks * 2 ^ 8) 512 * n + 512) in
    subst (λ (b : ℕ). (256 * ((w + 15) / 16 * ((h + 15) / 16)) * n ≤ size b) × (size b < 2 ^ 31))
      (blocks_shifted w h p q) (per_block ((w + 15) / 16 * ((h + 15) / 16)) n m k)
