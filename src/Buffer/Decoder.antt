-- ===== src/Buffer/Decoder.antt =====
-- iris_vpu_buffer.c: the sizes of the decoder's internal buffers, but for the line buffers. Sums and
-- products wrap around where they are stored, compared, divided or returned.
use nabu_iris.Common.{ℕ, ◌+◌, ◌*◌, ◌/◌, ◌^◌, min, max, u32, leb, ltb, if◌then◌else◌}
use nabu_iris.Buffer.{
  align_u32, div_round_up_u32, dma_alignment, num_hw_pic_buf, bin_buffer_threshold, lcus,
  vpp_cmd_max_size, hdr10_hist_extradata_size, h264d_max_slice, h265d_max_slice, size_hw_pic,
}

-- A buffer that is divided among the pipes.
abbrev pub per_pipe : ℕ → ℕ → ℕ
per_pipe size pipes = align_u32 (u32 size / pipes) dma_alignment * pipes

unfoldable pub bin_size_yuv : ℕ → ℕ → ℕ
bin_size_yuv w h =
    if leb (u32 (w * h)) bin_buffer_threshold
    then bin_buffer_threshold * 3 / 2
    else u32 (w * h * 3) / 2

-- H264_CABAC_HDR_RATIO_HD_TOT is 1 and H264_CABAC_RES_RATIO_HD_TOT 3.
unfoldable pub size_h264d_hw_bin_buffer : ℕ → ℕ → ℕ → ℕ
size_h264d_hw_bin_buffer w h pipes =
    u32 (per_pipe (bin_size_yuv w h * 1) pipes + per_pipe (bin_size_yuv w h * 3) pipes)

unfoldable pub hfi_buffer_bin_h264d : ℕ → ℕ → ℕ → ℕ
hfi_buffer_bin_h264d w h pipes = size_h264d_hw_bin_buffer (align_u32 w 16) (align_u32 h 16) pipes

-- Both ratios of H.265 are 2.
unfoldable pub size_h265d_hw_bin_buffer : ℕ → ℕ → ℕ → ℕ
size_h265d_hw_bin_buffer w h pipes =
    u32 (per_pipe (bin_size_yuv w h * 2) pipes + per_pipe (bin_size_yuv w h * 2) pipes)

unfoldable pub hfi_buffer_bin_h265d : ℕ → ℕ → ℕ → ℕ
hfi_buffer_bin_h265d w h pipes = size_h265d_hw_bin_buffer (align_u32 w 16) (align_u32 h 16) pipes

-- The share of one pipe, by a budget of the frame: VPX_DECODER_FRAME_BIN_DENOMINATOR and
-- VPX_DECODER_FRAME_CONCURENCY_LVL are 2.
abbrev pub vp9_bin_share : ℕ → ℕ → ℕ → ℕ
vp9_bin_share yuv budget pipes =
    align_u32 (u32 (u32 (max yuv (bin_buffer_threshold * 3 / 2) * budget) / 2 * 2) / pipes)
      dma_alignment

unfoldable pub hfi_buffer_bin_vp9d : ℕ → ℕ → ℕ → ℕ
hfi_buffer_bin_vp9d w h pipes =
    let yuv = u32 (align_u32 w 16 * align_u32 h 16 * 3) / 2 in
    u32 (u32 (vp9_bin_share yuv 1 pipes + vp9_bin_share yuv 3 pipes) * pipes)

-- Two arrays over pairs of rows of macroblocks, for each buffer: SIZE_H264D_BUFTAB_T is 256.
abbrev pub col_array : ℕ → ℕ → ℕ
col_array width rows = align_u32 (align_u32 (width * ((rows + 1) / 2)) 64 * 2) 512

unfoldable pub comv_h264d_colloc : ℕ → ℕ → ℕ
comv_h264d_colloc w h =
    let rows = div_round_up_u32 h 16 in
    let columns = div_round_up_u32 w 16 in
    u32 (
      col_array (align_u32 (columns * 2 ^ 7) 16) rows
      + (col_array (align_u32 (columns * 2 ^ 2) 16) rows + 256 * 2))

unfoldable pub hfi_buffer_comv_h264d : ℕ → ℕ → ℕ → ℕ
unfolding comv_h264d_colloc
hfi_buffer_comv_h264d w h count = u32 (comv_h264d_colloc w h * count + 512)

unfoldable pub hfi_buffer_comv_h265d : ℕ → ℕ → ℕ → ℕ
hfi_buffer_comv_h265d w h count =
    let rows = u32 (h + 15) / 16 in
    let columns = u32 (w + 15) / 16 in u32 (align_u32 (columns * rows * 2 ^ 8) 512 * count + 512)

-- The number of slices that a command buffer is made for.
abbrev pub h264d_slices : ℕ → ℕ
h264d_slices h = min (u32 (div_round_up_u32 (align_u32 h 32) 16 * 48)) h264d_max_slice

-- SIZE_H264D_BSE_CMD_PER_BUF is 32 * 4.
unfoldable pub size_h264d_bse_cmd_buf : ℕ → ℕ
size_h264d_bse_cmd_buf h = u32 (h264d_slices h * (32 * 4))

-- SIZE_H264D_VPP_CMD_PER_BUF is 512.
unfoldable pub size_h264d_vpp_cmd_buf : ℕ → ℕ
size_h264d_vpp_cmd_buf h =
    let size = u32 (h264d_slices h * 512) in
    if ltb vpp_cmd_max_size size then vpp_cmd_max_size else size

abbrev pub h265d_slices : ℕ → ℕ → ℕ
h265d_slices w h =
    min (align_u32 (lcus w * lcus h * num_hw_pic_buf) dma_alignment) (h265d_max_slice + 1)

-- SIZE_H265D_BSE_CMD_PER_BUF is 16 * sizeof(u32).
unfoldable pub size_h265d_bse_cmd_buf : ℕ → ℕ → ℕ
size_h265d_bse_cmd_buf w h = u32 (2 * h265d_slices w h * (16 * 4))

-- SIZE_H265D_VPP_CMD_PER_BUF is 256.
unfoldable pub size_h265d_vpp_cmd_buf : ℕ → ℕ → ℕ
size_h265d_vpp_cmd_buf w h =
    let size = u32 (2 * align_u32 (h265d_slices w h) 4 * 256) in
    if ltb vpp_cmd_max_size size then vpp_cmd_max_size else size

unfoldable pub hfi_buffer_persist_h265d : ℕ → ℕ
hfi_buffer_persist_h265d rpu_enabled =
    align_u32
      (2 ^ 10 * (80 + 20)
        + 48 * 3072
        + (128 * 32 + 1) * 4
        + num_hw_pic_buf * 4096
        + rpu_enabled * num_hw_pic_buf * (41 * 1024))
      dma_alignment

abbrev pub hfi_iris3_vp9d_comv_size : ℕ
hfi_iris3_vp9d_comv_size = (8192 + 63) / 64 * ((4320 + 63) / 64) * 8 * 8 * 2 * 8

-- VP9_NUM_FRAME_INFO_BUF is 32 and CCE_TILE_OFFSET_SIZE is 512.
unfoldable pub hfi_buffer_persist_vp9d : ℕ
hfi_buffer_persist_vp9d = u32 (
    align_u32 ((32 + 4) * 3840) dma_alignment
    + align_u32 hfi_iris3_vp9d_comv_size dma_alignment
    + align_u32 34 dma_alignment
    + align_u32 (3 * 128) dma_alignment
    + align_u32 (32 * align_u32 (32 * 4 * 4) 32) dma_alignment
    + align_u32 (32 * 6144) dma_alignment
    + hdr10_hist_extradata_size)

unfoldable pub hfi_buffer_persist_h264d : ℕ
hfi_buffer_persist_h264d =
    align_u32 (512 * (256 + 32) + 3328 * 66 + num_hw_pic_buf * 4096) dma_alignment

unfoldable pub hfi_buffer_non_comv_h264d : ℕ → ℕ → ℕ → ℕ
hfi_buffer_non_comv_h264d w h pipes =
    align_u32
      (align_u32 (size_h264d_bse_cmd_buf h) dma_alignment
        + align_u32 (size_h264d_vpp_cmd_buf h) dma_alignment
        + align_u32 size_hw_pic dma_alignment)
      dma_alignment

unfoldable pub hfi_buffer_non_comv_h265d : ℕ → ℕ → ℕ → ℕ
hfi_buffer_non_comv_h265d w h pipes =
    align_u32
      (align_u32 (size_h265d_bse_cmd_buf w h) dma_alignment
        + align_u32 (size_h265d_vpp_cmd_buf w h) dma_alignment
        + align_u32 (num_hw_pic_buf * 20 * 22 * 4) dma_alignment
        + align_u32 (2 * 2 * lcus w * lcus h) dma_alignment
        + align_u32 size_hw_pic dma_alignment
        + hdr10_hist_extradata_size)
      dma_alignment
