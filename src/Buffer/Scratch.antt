-- ===== src/Buffer/Scratch.antt =====
-- iris_vpu_buffer.c: the encoder's scratch buffers of the gen1 firmware, which hold in one buffer what
-- the gen2 firmware has in several.
use nabu_iris.Common.{ℕ, ◌+◌, ◌*◌, ◌/◌, ◌^◌, Bool, true, false, max, ltb, u32, if◌then◌else◌}
use nabu_iris.Buffer.{align_u32, bit, hfi_max_col_frame}
use nabu_iris.Buffer.Encoder.{in_lcus, metadata_size, ten_bit_stride}
use nabu_iris.Buffer.EncoderLine.{pipe_alignment}

-- The lines of the picture that the pipes keep on their left.
unfoldable pub scratch1_left_lines : ℕ → Bool → ℕ → Bool → ℕ
scratch1_left_lines height_coded ten_bit pipes is_h265 =
    let ctrl =
      (if is_h265
        then u32 (height_coded + 32) / 32 * 4 * 16
        else u32 (height_coded + 15) / 16 * 5 * 16) in
    let depth = (if ten_bit then 4 else 8) in
    align_u32 (if ltb 1 pipes then align_u32 (ctrl + 512) 512 * pipes else ctrl) 256
    + align_u32 ((bit ten_bit + 1) * 2 * height_coded + 256) (pipe_alignment pipes)
    + align_u32 (256 + 64 * (height_coded / 2 ^ 4)) (pipe_alignment pipes) * pipes
    + align_u32 (256 + 64 * (height_coded / (8 * depth))) 256 * pipes
    + align_u32 (256 + 64 * (height_coded / (4 * depth))) 256 * pipes

-- The lines above a row of coding units.
unfoldable pub scratch1_top_lines : ℕ → Bool → Bool → ℕ
scratch1_top_lines width_coded ten_bit is_h265 =
    let bytes = (if ten_bit then 10 else 8) * width_coded + 1024 in
    let ctrl_fe =
      (if is_h265 then 64 * (width_coded / 2 ^ 5) else 256 + 16 * (width_coded / 2 ^ 4)) in
    align_u32 width_coded 256
    + (align_u32 bytes 256 + align_u32 (u32 bytes / 2) 256 * 2)
    + align_u32 width_coded 256
    + align_u32 ctrl_fe 256
    + align_u32 ((if ten_bit then 3 else 2) * width_coded) 256
    + align_u32 (256 + 16 * (width_coded / 2 ^ 4)) 256
    + align_u32 (16 * (width_coded / 2 ^ 5)) 256

-- The statistics of the rate control and the motion vectors.
unfoldable pub scratch1_motion : ℕ → ℕ → ℕ → ℕ → Bool → ℕ
scratch1_motion columns rows num_ref pipes is_h265 =
    let lcus = columns * rows in
    let col_mv = (if is_h265 then 16 * (u32 lcus * 2 ^ 2 + 32) else 3 * 16 * (lcus + 32)) in
    let colrc = (columns + 7) / 2 ^ 3 * 16 * 2 * rows in
    align_u32 col_mv 256 * (num_ref + 1)
    + align_u32 (if ltb 1 pipes then align_u32 colrc 256 * pipes else colrc) 256 * hfi_max_col_frame

unfoldable pub scratch1_frame_rc : ℕ → ℕ → Bool → ℕ
scratch1_frame_rc height_coded pipes is_h265 =
    let size =
      (if is_h265
        then (256 + 16 * (14 + (height_coded / 2 ^ 5 + 7) / 2 ^ 3)) * 6
        else (256 + 16 * (14 + (height_coded / 2 ^ 4 + 7) / 2 ^ 3)) * 6) in
    align_u32 (if ltb 1 pipes then align_u32 size 256 * pipes else size) 512 * hfi_max_col_frame

-- The statistics of the search, by the size of the picture.
unfoldable pub scratch1_se_stats : ℕ → ℕ → ℕ
scratch1_se_stats area lcus =
    let size =
      (if ltb (4096 * 2160) area
        then 0
        else if ltb (1920 * 1088) area
        then 40 * 4 * lcus + 256 + 256
        else 1024 * lcus + 256 + 256) in
    align_u32 size 256 * 2

-- What depends on the number of coding units alone.
unfoldable pub scratch1_units : ℕ → ℕ → ℕ
scratch1_units lcus lcu_mb =
    align_u32 (256 + 4 * lcus) 256
    + align_u32 (256 + lcus / 2 ^ 3) 256
    + align_u32 (16 * (u32 (lcu_mb + 7) / 2 ^ 3)) 256 * 2
    + align_u32 (lcus * 2) 8 * 3
    + align_u32 (256 + lcus * 2 ^ 4) 256

-- The command and register buffers: BSE and VPP registers, headers, slices, lambda table.
abbrev pub scratch1_commands : ℕ
scratch1_commands =
    align_u32 (512 * 2 ^ 3) 8 * 4
    + align_u32 (2048 * 2 ^ 3) 32 * 10
    + (2048 + 4096)
    + align_u32 20480 256
    + align_u32 (8192 * 2 ^ 2) 8 * 6
    + 256 * 11

unfoldable pub hfi_buffer_scratch1_enc : ℕ → ℕ → ℕ → ℕ → Bool → ℕ → Bool → ℕ
hfi_buffer_scratch1_enc w h lcu_size num_ref ten_bit pipes is_h265 =
    let columns = in_lcus w lcu_size in
    let rows = in_lcus h lcu_size in
    let lcus = u32 (columns * rows) in
    let width_coded = u32 (columns * lcu_size) in
    let height_coded = u32 (rows * lcu_size) in
    let lcu_mb = u32 (height_coded / lcu_size * (u32 (width_coded + lcu_size * 8) / lcu_size)) in
    let vpss_line =
      (u32 (max width_coded height_coded + 3) / 2 ^ 2 * 2 ^ 5 + 256) * 16
      + (8192 / 2 ^ 2 * 2 ^ 5 * pipes + 64) in
    u32 (
      scratch1_top_lines width_coded ten_bit is_h265
      + scratch1_left_lines height_coded ten_bit pipes is_h265
      + vpss_line
      + scratch1_motion columns rows num_ref pipes is_h265
      + scratch1_frame_rc height_coded pipes is_h265
      + scratch1_units lcus lcu_mb
      + scratch1_commands
      + scratch1_se_stats (u32 (width_coded * height_coded)) lcus
      + 1024)

-- The reference frames, with their metadata.
unfoldable pub hfi_buffer_scratch2_enc : ℕ → ℕ → ℕ → Bool → ℕ
hfi_buffer_scratch2_enc w h num_ref false =
    let frame = (align_u32 h 32 + align_u32 (h / 2) 32) * align_u32 w 128 in
    u32 ((frame + metadata_size w h 32 8 + metadata_size w h 32 8) * (num_ref + 3) + 4096)
hfi_buffer_scratch2_enc w h num_ref true =
    let luma = align_u32 (align_u32 h 32 * ten_bit_stride w) 4096 in
    let chroma = align_u32 (ten_bit_stride w * align_u32 (u32 (h + 1) / 2) 32) 4096 in
    u32 ((luma + chroma + metadata_size w h 48 4 + metadata_size w h 48 4) * (num_ref + 3) + 4096)
