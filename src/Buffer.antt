-- ===== src/Buffer.antt =====
-- iris_buffer.h and iris_vpu_buffer.h: the kinds of buffers, the part of an instance that their sizes
-- are computed from, and the constants of the hardware.
pub mod Decoder
pub mod Line
pub mod Encoder
pub mod EncoderLine
pub mod Scratch
pub mod Yuv
pub mod Size
pub mod Align
pub mod Aligned
pub mod Fits
pub mod Pool
pub mod Stamps
pub mod Clients
use nabu_iris.Common.{ℕ, ◌+◌, ◌-◌, ◌*◌, ◌/◌, ◌^◌, Bool, true, false, u32}
use nabu_iris.Instance.{Domain}

-- `enum iris_buffer_type`
pub data BufferType : Type 0 where
  input output bin arp comv non_comv line dpb persist scratch_1 scratch_2 vpss : BufferType

-- inst->codec, a V4L2_PIX_FMT of a compressed stream.
pub data Codec : Type 0 where
  h264 hevc vp9 other : Codec

abbrev pub is_vp9 : Codec → Bool
is_vp9 Codec.vp9 = true
is_vp9 _ = false

-- The pixel format of a raw frame.
pub data PixelFormat : Type 0 where
  nv12 p010 qc08c qc10c : PixelFormat

-- What the sizes are computed from: fields of the instance, of its formats and of the platform.
pub record Shape : Type 0 where
  pub domain : Domain
  pub codec : Codec
  pub src_width : ℕ  -- fmt_src
  pub src_height : ℕ
  pub dst_width : ℕ  -- fmt_dst
  pub dst_height : ℕ
  pub dst_format : PixelFormat
  pub mbpf : ℕ  -- iris_get_mbpf
  pub scaled : Bool  -- is_scaling_enabled
  pub fw_min_count : ℕ
  pub output_min_count : ℕ  -- buffers[BUF_OUTPUT].min_count
  pub stage : ℕ  -- fw_caps[STAGE].value
  pub hfi_rc_type : ℕ
  pub constant_quality : Bool  -- the bit rate mode is CQ
  pub frame_rc : Bool  -- fw_caps[FRAME_RC_ENABLE].value
  pub num_vpp_pipe : ℕ  -- iris_platform_data
  pub legacy_vpu5 : Bool
  pub max_mbpf : ℕ  -- inst_caps->max_mbpf

-- ALIGN(x, a) on u32, for `a` a power of two. Sums and products below it need no wrap-around of
-- their own, since it takes theirs.
abbrev pub align_u32 : ℕ → ℕ → ℕ
align_u32 x a = u32 (x + a - 1) / a * a

-- DIV_ROUND_UP on u32
abbrev pub div_round_up_u32 : ℕ → ℕ → ℕ
div_round_up_u32 n d = u32 (n + d - 1) / d

abbrev pub dma_alignment : ℕ
dma_alignment = 256

abbrev pub num_hw_pic_buf : ℕ
num_hw_pic_buf = 32

abbrev pub bin_buffer_threshold : ℕ
bin_buffer_threshold = 1280 * 736

-- ALIGN(x, LCU_MAX_SIZE_PELS) / LCU_MIN_SIZE_PELS
abbrev pub lcus : ℕ → ℕ
lcus x = align_u32 x 64 / 16

abbrev pub vpp_cmd_max_size : ℕ
vpp_cmd_max_size = 2 ^ 20

abbrev pub hdr10_hist_extradata_size : ℕ
hdr10_hist_extradata_size = 4 * 1024

abbrev pub video_max_frame : ℕ
video_max_frame = 32

abbrev pub h264d_max_slice : ℕ
h264d_max_slice = 1800

abbrev pub h265d_max_slice : ℕ
h265d_max_slice = 1200

-- HFI_CODEC_ENCODE_AVC and HFI_CODEC_ENCODE_HEVC
abbrev pub hfi_codec_encode_avc : ℕ
hfi_codec_encode_avc = 2

abbrev pub hfi_codec_encode_hevc : ℕ
hfi_codec_encode_hevc = 4

-- The two stages of the encoder: STAGE_2
abbrev pub stage_2 : ℕ
stage_2 = 2

-- NUM_MBS_4K and NUM_MBS_720P
abbrev pub num_mbs_4k : ℕ
num_mbs_4k = 4096 / 16 * (2304 / 16)

abbrev pub num_mbs_720p : ℕ
num_mbs_720p = 1280 / 16 * (736 / 16)

-- HFI_MAX_COL_FRAME
abbrev pub hfi_max_col_frame : ℕ
hfi_max_col_frame = 6

-- A bool as an int.
abbrev pub bit : Bool → ℕ
bit true = 1
bit false = 0

-- SIZE_HW_PIC(SIZE_H264D_HW_PIC_T)
abbrev pub size_hw_pic : ℕ
size_hw_pic = num_hw_pic_buf * 2 ^ 11
