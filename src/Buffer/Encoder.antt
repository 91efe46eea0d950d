-- ===== src/Buffer/Encoder.antt =====
-- iris_vpu_buffer.c: the sizes of the encoder's internal buffers, but for the line and scratch
-- buffers.
use nabu_iris.Common.{
  ℕ, ◌+◌, ◌-◌, ◌*◌, ◌/◌, ◌^◌, Bool, true, false, ◌||◌, ◌==◌, leb, ltb, u32, if◌then◌else◌,
}
use nabu_iris.Buffer.{
  align_u32, stage_2, num_mbs_4k, num_mbs_720p, hfi_codec_encode_hevc, hfi_max_col_frame,
}

-- HFI_RATE_CONTROL_OFF, HFI_RATE_CONTROL_CQ, HFI_RC_OFF and HFI_RC_CQ
abbrev pub is_open_rate : ℕ → Bool
is_open_rate rc = (rc == 0x1000001) || ((rc == 0x1000008) || ((rc == 3) || (rc == 2)))

-- The bytes for one coded frame, by the number of its macroblocks.
unfoldable pub enc_frame_size : ℕ → ℕ → ℕ
enc_frame_size w h =
    let mbs = u32 (align_u32 (align_u32 h 32) 16 * align_u32 (align_u32 w 32) 16) / 256 in
    let frame_size = u32 (w * h * 3) in
    if ltb mbs num_mbs_720p
    then u32 (frame_size * 2)
    else if leb mbs num_mbs_4k
    then frame_size / 2 ^ 2
    else frame_size / 2 ^ 3

unfoldable pub size_bin_bitstream_enc : ℕ → ℕ → ℕ → ℕ
size_bin_bitstream_enc w h rc =
    let frame_size =
      (if is_open_rate rc then u32 (enc_frame_size w h * 2) else enc_frame_size w h) in
    align_u32 (u32 (frame_size * 5) / 4) 4096

-- The bytes for the bins of one pipe, with those of the SAO filter.
abbrev pub with_sao : ℕ → ℕ → ℕ → ℕ
with_sao w h size =
    align_u32 (64 * (u32 ((w + 32) * (h + 32)) / 2 ^ 10) + 384 + align_u32 size 256) 256

abbrev pub single_pipe : ℕ → ℕ → ℕ
single_pipe bitbin pipes = align_u32 (if ltb 2 pipes then bitbin / 2 else bitbin) 256

unfoldable pub hfi_buffer_bin_enc : ℕ → ℕ → ℕ → ℕ → ℕ → ℕ → ℕ
hfi_buffer_bin_enc w h work_mode lcu_size pipes rc =
    let two_stages = work_mode == stage_2 in
    let total_bitbin_buffers : ℕ = if two_stages then 3 else 1 in
    let bitbin =
      (if two_stages
        then align_u32 (u32 (align_u32 (size_bin_bitstream_enc w h rc) 256 * 17) / 10) 256
        else align_u32 (align_u32 w lcu_size * align_u32 h lcu_size * 3) 256) in
    u32
      (align_u32 (with_sao w h (single_pipe bitbin pipes) * pipes) 256 * total_bitbin_buffers + 512)

-- The number of coding units in a row or a column.
abbrev pub in_lcus : ℕ → ℕ → ℕ
in_lcus x lcu_size = u32 (x + lcu_size - 1) / lcu_size

unfoldable pub hfi_buffer_comv_enc : ℕ → ℕ → ℕ → ℕ → ℕ → ℕ
hfi_buffer_comv_enc w h lcu_size num_recon standard =
    let lcus = in_lcus w lcu_size * in_lcus h lcu_size in
    let mb_height = u32 (h + 15) / 16 in
    let mb_width = u32 (w + 15) / 16 in
    let colloc_mv =
      (if standard == hfi_codec_encode_hevc
        then 16 * (lcus * 2 ^ 2 + 32)
        else 3 * 16 * (lcus + 32)) in
    let colloc_rc = (mb_width + 7) / 2 ^ 3 * 16 * 2 * mb_height in
    u32 (align_u32 colloc_mv 256 * num_recon + align_u32 colloc_rc 256 * hfi_max_col_frame)

unfoldable pub size_frame_rc_buf_size : ℕ → ℕ → ℕ → ℕ
size_frame_rc_buf_size standard h pipes =
    let size =
      (if standard == hfi_codec_encode_hevc
        then (256 + 16 * (14 + (h / 2 ^ 5 + 7) / 2 ^ 3)) * 11
        else (256 + 16 * (14 + (h / 2 ^ 4 + 7) / 2 ^ 3)) * 11) in
    u32
      (align_u32 (if ltb 1 pipes then align_u32 size 256 * pipes else size) 512 * hfi_max_col_frame)

unfoldable pub size_enc_slice_info_buf : ℕ → ℕ
size_enc_slice_info_buf lcus = align_u32 (256 + lcus * 2 ^ 4) 256

unfoldable pub enc_bitcnt_buf_size : ℕ → ℕ
enc_bitcnt_buf_size lcus = align_u32 (256 + 4 * lcus) 256

unfoldable pub enc_bitmap_buf_size : ℕ → ℕ
enc_bitmap_buf_size lcus = align_u32 (256 + lcus / 2 ^ 3) 256

unfoldable pub size_override_buf : ℕ → ℕ
size_override_buf lcumb = u32 (align_u32 (16 * (u32 (lcumb + 7) / 2 ^ 3)) 256 * 2)

unfoldable pub size_ir_buf : ℕ → ℕ
size_ir_buf lcus = align_u32 (align_u32 (lcus * 2) 8 * 3) 256

-- SIZE_SLICE_CMD_BUFFER, SIZE_SPS_PPS_SLICE_HDR, SIZE_BSE_SLICE_CMD_BUF and SIZE_LAMBDA_LUT
abbrev pub size_slice_cmd_buffer : ℕ
size_slice_cmd_buffer = 20480

abbrev pub size_sps_pps_slice_hdr : ℕ
size_sps_pps_slice_hdr = 2048 + 4096

abbrev pub size_bse_slice_cmd_buf : ℕ
size_bse_slice_cmd_buf = 8192 * 4 * 3

abbrev pub size_lambda_lut : ℕ
size_lambda_lut = 256 * 11

unfoldable pub hfi_buffer_non_comv_enc : ℕ → ℕ → ℕ → ℕ → ℕ → ℕ
hfi_buffer_non_comv_enc w h pipes lcu_size standard =
    let rows = in_lcus h lcu_size in
    let columns = in_lcus w lcu_size in
    let lcus = u32 (columns * rows) in
    let height_coded = u32 (rows * lcu_size) in
    let width_coded = u32 (columns * lcu_size) in
    let lcumb = u32 (height_coded / lcu_size * (u32 (width_coded + lcu_size * 8) / lcu_size)) in
    u32 (
      size_enc_slice_info_buf lcus
      + size_slice_cmd_buffer
      + size_sps_pps_slice_hdr
      + size_frame_rc_buf_size standard height_coded pipes
      + enc_bitcnt_buf_size lcus
      + enc_bitmap_buf_size lcus
      + size_bse_slice_cmd_buf
      + size_lambda_lut
      + size_override_buf lcumb
      + size_ir_buf lcus)

unfoldable pub size_enc_ref_buffer : ℕ → ℕ → ℕ
size_enc_ref_buffer w h = u32 ((align_u32 h 32 + align_u32 (h / 2) 32) * align_u32 w 32)

-- The stride of ten-bit luma: SYSTEM_LAL_TILE10 is 192.
abbrev pub ten_bit_stride : ℕ → ℕ
ten_bit_stride w = align_u32 (4 * (u32 (w + 192 - 1) / 192 * 192 / 3)) 128

unfoldable pub size_enc_ten_bit_ref_buffer : ℕ → ℕ → ℕ
size_enc_ten_bit_ref_buffer w h =
    let luma = align_u32 (align_u32 h 32 * ten_bit_stride w) 4096 in
    let chroma = align_u32 (ten_bit_stride w * align_u32 (u32 (h + 1) / 2) 32) 4096 in
    u32 (luma + chroma)

-- The three functions `hfi_ubwc_...` of the same file are these under another name.
unfoldable pub ubwc_metadata_plane_stride : ℕ → ℕ → ℕ → ℕ
ubwc_metadata_plane_stride w multiple tile = align_u32 (u32 (w + (tile - 1)) / tile) multiple

unfoldable pub ubwc_metadata_plane_bufheight : ℕ → ℕ → ℕ → ℕ
ubwc_metadata_plane_bufheight h multiple tile = align_u32 (u32 (h + (tile - 1)) / tile) multiple

unfoldable pub ubwc_metadata_plane_buffer_size : ℕ → ℕ → ℕ
ubwc_metadata_plane_buffer_size stride height = align_u32 (stride * height) 4096

-- The metadata of one plane, for tiles of a width and a height.
abbrev pub metadata_size : ℕ → ℕ → ℕ → ℕ → ℕ
metadata_size w h tile_w tile_h =
    ubwc_metadata_plane_buffer_size (ubwc_metadata_plane_stride w 64 tile_w)
      (ubwc_metadata_plane_bufheight h 16 tile_h)

unfoldable pub hfi_buffer_dpb_enc : ℕ → ℕ → Bool → ℕ
hfi_buffer_dpb_enc w h false =
    u32 (size_enc_ref_buffer w h + metadata_size w h 32 8 + metadata_size w h 32 8)
hfi_buffer_dpb_enc w h true =
    u32 (size_enc_ten_bit_ref_buffer w h + metadata_size w h 48 4 + metadata_size w h 48 4)

unfoldable pub hfi_buffer_vpss_enc : ℕ → ℕ → Bool → Bool → Bool → ℕ
hfi_buffer_vpss_enc w h ds_enable blur ten_bit =
    if ds_enable || blur then hfi_buffer_dpb_enc w h ten_bit else 0
