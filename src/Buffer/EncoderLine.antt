-- ===== src/Buffer/EncoderLine.antt =====
-- iris_vpu_buffer.c: the sizes of the encoder's line buffers.
use nabu_iris.Common.{ℕ, ◌+◌, ◌-◌, ◌*◌, ◌/◌, ◌^◌, Bool, max, ◌==◌, ltb, u32, if◌then◌else◌}
use nabu_iris.Buffer.{align_u32, bit, hfi_codec_encode_hevc}
use nabu_iris.Buffer.Encoder.{in_lcus}

-- The alignment of what the pipes share: 256 << (pipes - 1).
abbrev pub pipe_alignment : ℕ → ℕ
pipe_alignment pipes = 256 * 2 ^ (pipes - 1)

unfoldable pub size_linebuff_data : Bool → ℕ → ℕ
size_linebuff_data ten_bit w =
    let bytes = (if ten_bit then 10 * w + 1024 else 8 * w + 1024) in
    u32 (align_u32 bytes 256 + align_u32 (u32 bytes / 2) 256 * 2)

unfoldable pub size_left_linebuff_ctrl : ℕ → ℕ → ℕ → ℕ
size_left_linebuff_ctrl standard h pipes =
    let size =
      (if standard == hfi_codec_encode_hevc
        then u32 (h + 32) / 32 * 4 * 16
        else u32 (h + 15) / 16 * 5 * 16) in
    align_u32 (if ltb 1 pipes then align_u32 (size + 512) 512 * pipes else size) 256

unfoldable pub size_left_linebuff_recon_pix : Bool → ℕ → ℕ → ℕ
size_left_linebuff_recon_pix ten_bit h pipes =
    align_u32 ((bit ten_bit + 1) * 2 * h + 256) (pipe_alignment pipes)

unfoldable pub size_top_linebuff_ctrl_fe : ℕ → ℕ → ℕ
size_top_linebuff_ctrl_fe w standard =
    if standard == hfi_codec_encode_hevc
    then align_u32 (64 * (w / 2 ^ 5)) 256
    else align_u32 (256 + 16 * (w / 2 ^ 4)) 256

unfoldable pub size_left_linebuff_ctrl_fe : ℕ → ℕ → ℕ
size_left_linebuff_ctrl_fe h pipes =
    u32 (align_u32 (256 + 64 * (h / 2 ^ 4)) (pipe_alignment pipes) * pipes)

unfoldable pub size_left_linebuff_metadata_recon_y : ℕ → Bool → ℕ → ℕ
size_left_linebuff_metadata_recon_y h ten_bit pipes =
    u32 (align_u32 (256 + 64 * (h / (8 * (if ten_bit then 4 else 8)))) 256 * pipes)

unfoldable pub size_left_linebuff_metadata_recon_uv : ℕ → Bool → ℕ → ℕ
size_left_linebuff_metadata_recon_uv h ten_bit pipes =
    u32 (align_u32 (256 + 64 * (h / (4 * (if ten_bit then 4 else 8)))) 256 * pipes)

unfoldable pub size_linebuff_recon_pix : Bool → ℕ → ℕ
size_linebuff_recon_pix ten_bit w = align_u32 ((if ten_bit then 3 else 2) * w) 256

unfoldable pub size_line_buf_ctrl : ℕ → ℕ
size_line_buf_ctrl w = align_u32 w 256

unfoldable pub size_line_buf_ctrl_id2 : ℕ → ℕ
size_line_buf_ctrl_id2 w = align_u32 w 256

unfoldable pub size_line_buf_sde : ℕ → ℕ
size_line_buf_sde w = align_u32 (256 + 16 * (w / 2 ^ 4)) 256

unfoldable pub size_vpss_line_buf : ℕ → ℕ → ℕ → ℕ
size_vpss_line_buf pipes h w =
    align_u32 (8192 / 2 ^ 2 * 2 ^ 5 * pipes + 64 + (u32 (max w h + 3) / 2 ^ 2 * 2 ^ 5 + 256) * 16)
      256

unfoldable pub size_top_line_buf_first_stg_sao : ℕ → ℕ
size_top_line_buf_first_stg_sao w = align_u32 (16 * (w / 2 ^ 5)) 256

unfoldable pub hfi_buffer_line_enc : ℕ → ℕ → Bool → ℕ → ℕ → ℕ → ℕ
hfi_buffer_line_enc w h ten_bit pipes lcu_size standard =
    let width = u32 (in_lcus w lcu_size * lcu_size) in
    let height = u32 (in_lcus h lcu_size * lcu_size) in
    u32 (
      size_line_buf_ctrl width
      + size_line_buf_ctrl_id2 width
      + size_linebuff_data ten_bit width
      + size_left_linebuff_ctrl standard height pipes
      + size_left_linebuff_recon_pix ten_bit height pipes
      + size_top_linebuff_ctrl_fe width standard
      + size_left_linebuff_metadata_recon_y height ten_bit pipes
      + size_left_linebuff_metadata_recon_uv height ten_bit pipes
      + size_linebuff_recon_pix ten_bit width
      + size_left_linebuff_ctrl_fe height pipes
      + size_line_buf_sde width
      + size_vpss_line_buf pipes height width
      + size_top_line_buf_first_stg_sao width)
