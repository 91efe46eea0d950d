-- ===== src/Buffer/Line.antt =====
-- iris_vpu_buffer.c and iris_vpu_buffer.h: the sizes of the decoder's line buffers.
use nabu_iris.Common.{ℕ, ◌+◌, ◌-◌, ◌*◌, ◌/◌, ◌^◌, Bool, max, u32, if◌then◌else◌}
use nabu_iris.Buffer.{align_u32, div_round_up_u32, dma_alignment, lcus}

-- ALIGN(x, DMA_ALIGNMENT)
abbrev pub dma : ℕ → ℕ
dma x = align_u32 x dma_alignment

-- The shares of a picture in MAX_TILE_COLUMNS columns of tiles of 32 by 32 pixels.
unfoldable pub vpss_top_line : ℕ → ℕ → ℕ
vpss_top_line w h =
    max (u32 (dma (align_u32 w 32 / 32 * 256) + (32 - 1) * 256)) (u32 (32 * align_u32 h 8))

unfoldable pub size_vpss_lb : ℕ → ℕ → ℕ
unfolding vpss_top_line
size_vpss_lb w h = u32 (
    vpss_top_line w h
    + vpss_top_line w h
    + align_u32 (align_u32 h 8 / (4 / 2) * 64) 32
    + align_u32 (align_u32 h 8 / (4 / 2) * 64) 32)

unfoldable pub size_h264d_lb_fe_top_data : ℕ → ℕ
size_h264d_lb_fe_top_data w = u32 (640 * align_u32 w 16 * 3)

unfoldable pub size_h264d_lb_fe_top_ctrl : ℕ → ℕ
size_h264d_lb_fe_top_ctrl w = u32 (64 * div_round_up_u32 w 16)

unfoldable pub size_h264d_lb_fe_left_ctrl : ℕ → ℕ
size_h264d_lb_fe_left_ctrl h = u32 (64 * div_round_up_u32 h 16)

unfoldable pub size_h264d_lb_se_top_ctrl : ℕ → ℕ
size_h264d_lb_se_top_ctrl w = u32 (16 * div_round_up_u32 w 16)

unfoldable pub size_h264d_lb_se_left_ctrl : ℕ → ℕ
size_h264d_lb_se_left_ctrl h = u32 (16 * div_round_up_u32 h 16)

unfoldable pub size_h264d_lb_pe_top_data : ℕ → ℕ
size_h264d_lb_pe_top_data w = u32 (384 * div_round_up_u32 w 16)

unfoldable pub size_h264d_lb_vsp_top : ℕ → ℕ
size_h264d_lb_vsp_top w = u32 (div_round_up_u32 w 16 * 2 ^ 7)

unfoldable pub size_h264d_lb_recon_dma_metadata_wr : ℕ → ℕ
size_h264d_lb_recon_dma_metadata_wr h = u32 (align_u32 h 16 * 32)

unfoldable pub size_h264d_qp : ℕ → ℕ → ℕ
size_h264d_qp w h = u32 (div_round_up_u32 w 64 * div_round_up_u32 h 64 * 128)

unfoldable pub size_h265d_lb_fe_top_data : ℕ → ℕ
size_h265d_lb_fe_top_data w = u32 (640 * (align_u32 w 64 + 8) * 2)

unfoldable pub size_h265d_lb_fe_top_ctrl : ℕ → ℕ
size_h265d_lb_fe_top_ctrl w = u32 (64 * lcus w)

unfoldable pub size_h265d_lb_fe_left_ctrl : ℕ → ℕ
size_h265d_lb_fe_left_ctrl h = u32 (64 * lcus h)

unfoldable pub size_h265d_lb_se_top_ctrl : ℕ → ℕ
size_h265d_lb_se_top_ctrl w = u32 (64 / 8 * (128 / 8) * (u32 (w + 15) / 16))

unfoldable pub size_h265d_lb_se_left_ctrl : ℕ → ℕ
size_h265d_lb_se_left_ctrl h =
    max (u32 (u32 (h + 16 - 1) / 8 * (128 / 8)))
      (max (u32 (u32 (h + 32 - 1) / 8 * (128 / 8))) (u32 (u32 (h + 64 - 1) / 8 * 16)))

unfoldable pub size_h265d_lb_pe_top_data : ℕ → ℕ
size_h265d_lb_pe_top_data w = u32 (384 * (align_u32 w 16 / 16))

unfoldable pub size_h265d_lb_vsp_top : ℕ → ℕ
size_h265d_lb_vsp_top w = u32 (u32 (w + 63) / 64 * 128)

unfoldable pub size_h265d_lb_vsp_left : ℕ → ℕ
size_h265d_lb_vsp_left h = u32 (u32 (h + 63) / 64 * 128)

unfoldable pub hfi_buffer_line_h265d : ℕ → ℕ → Bool → ℕ → ℕ
hfi_buffer_line_h265d w h is_opb pipes =
    let vpss_lb_size = if is_opb then size_vpss_lb w h else 0 in
    dma (
      dma (size_h265d_lb_fe_top_data w)
      + dma (size_h265d_lb_fe_top_ctrl w)
      + dma (size_h265d_lb_fe_left_ctrl h) * pipes
      + dma (size_h265d_lb_se_left_ctrl h) * pipes
      + dma (size_h265d_lb_se_top_ctrl w)
      + dma (size_h265d_lb_pe_top_data w)
      + dma (size_h265d_lb_vsp_top w)
      + dma (size_h265d_lb_vsp_left h) * pipes
      + dma (size_h264d_lb_recon_dma_metadata_wr h) * 4
      + dma (size_h264d_qp w h)
      + vpss_lb_size)

-- The largest over the three sizes of a coding unit.
abbrev pub vpxd_left : ℕ → ℕ → ℕ → ℕ → ℕ
vpxd_left h a b c =
    max (u32 (u32 (h + 15) / 16 * a))
      (max (u32 (u32 (h + 31) / 32 * b)) (u32 (u32 (h + 63) / 64 * c)))

unfoldable pub size_vpxd_lb_fe_left_ctrl : ℕ → ℕ
size_vpxd_lb_fe_left_ctrl h = vpxd_left h 64 64 64

unfoldable pub size_vpxd_lb_fe_top_ctrl : ℕ → ℕ
size_vpxd_lb_fe_top_ctrl w = u32 ((align_u32 w 64 + 8) * 10 * 2)

unfoldable pub size_vpxd_lb_se_top_ctrl : ℕ → ℕ
size_vpxd_lb_se_top_ctrl w = u32 (u32 (w + 15) / 16 * 64)

unfoldable pub size_vpxd_lb_se_left_ctrl : ℕ → ℕ
size_vpxd_lb_se_left_ctrl h = vpxd_left h (128 / 8) (128 / 8) 16

unfoldable pub size_vpxd_lb_recon_dma_metadata_wr : ℕ → ℕ
size_vpxd_lb_recon_dma_metadata_wr h = align_u32 (align_u32 h 8 / (4 / 2) * 64) 32

unfoldable pub size_vp9d_lb_fe_top_data : ℕ → ℕ
size_vp9d_lb_fe_top_data w = u32 ((align_u32 (align_u32 w 8) 64 + 8) * 10 * 2)

unfoldable pub size_vp9d_lb_pe_top_data : ℕ → ℕ
size_vp9d_lb_pe_top_data w = u32 (align_u32 (align_u32 w 8) 64 / 64 * 176)

unfoldable pub size_vp9d_lb_vsp_top : ℕ → ℕ
size_vp9d_lb_vsp_top w = u32 (align_u32 (align_u32 w 8) 64 / 64 * 64 * 8 + 256)

unfoldable pub hfi_iris3_vp9d_lb_size : ℕ → ℕ → ℕ → ℕ
hfi_iris3_vp9d_lb_size w h pipes = u32 (
    dma (size_vpxd_lb_fe_left_ctrl h) * pipes
    + dma (size_vpxd_lb_se_left_ctrl h) * pipes
    + dma (size_vp9d_lb_vsp_top w)
    + dma (size_vpxd_lb_fe_top_ctrl w)
    + 2 * dma (size_vpxd_lb_recon_dma_metadata_wr h)
    + dma (size_vpxd_lb_se_top_ctrl w)
    + dma (size_vp9d_lb_pe_top_data w)
    + dma (size_vp9d_lb_fe_top_data w)
    + dma (size_h264d_qp w h))

unfoldable pub hfi_buffer_line_vp9d : ℕ → ℕ → Bool → ℕ → ℕ
hfi_buffer_line_vp9d w h is_opb pipes =
    let vpss_lb_size = if is_opb then size_vpss_lb w h else 0 in
    u32 (hfi_iris3_vp9d_lb_size w h pipes + vpss_lb_size + 4096)

unfoldable pub hfi_buffer_line_h264d : ℕ → ℕ → Bool → ℕ → ℕ
hfi_buffer_line_h264d w h is_opb pipes =
    let size = dma (
      dma (size_h264d_lb_fe_top_data w)
      + dma (size_h264d_lb_fe_top_ctrl w)
      + dma (size_h264d_lb_fe_left_ctrl h) * pipes
      + dma (size_h264d_lb_se_top_ctrl w)
      + dma (size_h264d_lb_se_left_ctrl h) * pipes
      + dma (size_h264d_lb_pe_top_data w)
      + dma (size_h264d_lb_vsp_top w)
      + dma (size_h264d_lb_recon_dma_metadata_wr h) * 2
      + dma (size_h264d_qp w h)) in
    let vpss_lb_size = if is_opb then size_vpss_lb w h else 0 in dma (size + vpss_lb_size)
