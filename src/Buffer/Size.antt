-- ===== src/Buffer/Size.antt =====
-- iris_vpu_buffer.c: the size and the number of the buffers of each kind, for an instance.
use nabu_iris.Common.{ℕ, ◌+◌, min, Bool, true, false, not, ◌&&◌, ◌==◌, u32, if◌then◌else◌}
use nabu_iris.Instance.{Domain}
use nabu_iris.Buffer.{
  BufferType, Codec, PixelFormat, Shape, hfi_codec_encode_avc, hfi_codec_encode_hevc,
  video_max_frame, is_vp9,
}
use nabu_iris.Buffer.Decoder.{
  hfi_buffer_bin_h264d, hfi_buffer_bin_h265d, hfi_buffer_bin_vp9d, hfi_buffer_comv_h264d,
  hfi_buffer_comv_h265d, hfi_buffer_persist_h264d, hfi_buffer_persist_h265d,
  hfi_buffer_persist_vp9d, hfi_buffer_non_comv_h264d, hfi_buffer_non_comv_h265d,
}
use nabu_iris.Buffer.Line.{hfi_buffer_line_h264d, hfi_buffer_line_h265d, hfi_buffer_line_vp9d}
use nabu_iris.Buffer.Encoder.{
  hfi_buffer_bin_enc, hfi_buffer_comv_enc, hfi_buffer_non_comv_enc, hfi_buffer_vpss_enc,
}
use nabu_iris.Buffer.EncoderLine.{hfi_buffer_line_enc}
use nabu_iris.Buffer.Scratch.{hfi_buffer_scratch1_enc, hfi_buffer_scratch2_enc}
use nabu_iris.Buffer.Yuv.{get_buffer_size}

-- iris_utils.c
unfoldable pub split_mode_enabled : PixelFormat → Bool
split_mode_enabled PixelFormat.nv12 = true
split_mode_enabled PixelFormat.p010 = true
split_mode_enabled _ = false

unfoldable pub dec_bin_size : Codec → ℕ → ℕ → ℕ → ℕ
dec_bin_size Codec.h264 w h pipes = hfi_buffer_bin_h264d w h pipes
dec_bin_size Codec.hevc w h pipes = hfi_buffer_bin_h265d w h pipes
dec_bin_size Codec.vp9 w h pipes = hfi_buffer_bin_vp9d w h pipes
dec_bin_size Codec.other w h pipes = 0

unfoldable pub dec_comv_size : Codec → ℕ → ℕ → ℕ
dec_comv_size Codec.h264 w h = hfi_buffer_comv_h264d w h video_max_frame
dec_comv_size Codec.hevc w h = hfi_buffer_comv_h265d w h video_max_frame
dec_comv_size _ w h = 0

unfoldable pub dec_persist_size : Codec → ℕ
dec_persist_size Codec.h264 = hfi_buffer_persist_h264d
dec_persist_size Codec.hevc = hfi_buffer_persist_h265d 0
dec_persist_size Codec.vp9 = hfi_buffer_persist_vp9d
dec_persist_size Codec.other = 0

unfoldable pub dec_dpb_size : Shape → ℕ
unfolding split_mode_enabled
dec_dpb_size s =
    if split_mode_enabled s.dst_format then get_buffer_size s.domain s BufferType.dpb else 0

unfoldable pub dec_non_comv_size : Codec → ℕ → ℕ → ℕ → ℕ
dec_non_comv_size Codec.h264 w h pipes = hfi_buffer_non_comv_h264d w h pipes
dec_non_comv_size Codec.hevc w h pipes = hfi_buffer_non_comv_h265d w h pipes
dec_non_comv_size _ w h pipes = 0

unfoldable pub dec_line_size : Codec → ℕ → ℕ → Bool → ℕ → ℕ
dec_line_size Codec.h264 w h is_opb pipes = hfi_buffer_line_h264d w h is_opb pipes
dec_line_size Codec.hevc w h is_opb pipes = hfi_buffer_line_h265d w h is_opb pipes
dec_line_size Codec.vp9 w h is_opb pipes = hfi_buffer_line_vp9d w h is_opb pipes
dec_line_size Codec.other w h is_opb pipes = 0

unfoldable pub dec_line_size_of : Shape → ℕ
dec_line_size_of s =
    dec_line_size s.codec s.src_width s.src_height (split_mode_enabled s.dst_format) s.num_vpp_pipe

unfoldable pub dec_scratch1_size : Shape → ℕ
dec_scratch1_size s = u32 (
    dec_comv_size s.codec s.src_width s.src_height
    + dec_non_comv_size s.codec s.src_width s.src_height s.num_vpp_pipe
    + dec_line_size_of s)

abbrev pub is_hevc : Codec → Bool
is_hevc Codec.hevc = true
is_hevc _ = false

-- The coding unit and the standard of an encoder: all but H.265 are taken for H.264.
abbrev pub enc_lcu_size : Codec → ℕ
enc_lcu_size c = if is_hevc c then 32 else 16

abbrev pub enc_standard : Codec → ℕ
enc_standard c = if is_hevc c then hfi_codec_encode_hevc else hfi_codec_encode_avc

unfoldable pub enc_bin_size : Shape → ℕ
enc_bin_size s =
    hfi_buffer_bin_enc s.dst_width s.dst_height s.stage (enc_lcu_size s.codec) s.num_vpp_pipe
      s.hfi_rc_type

unfoldable pub enc_comv_size : Shape → ℕ
enc_comv_size s =
    hfi_buffer_comv_enc s.dst_width s.dst_height (enc_lcu_size s.codec) (1 + 1)
      (enc_standard s.codec)

-- SIZE_ONE_SLICE_BUF is 256.
unfoldable pub enc_non_comv_size : Shape → ℕ
enc_non_comv_size s =
    let size =
      hfi_buffer_non_comv_enc s.dst_width s.dst_height s.num_vpp_pipe (enc_lcu_size s.codec)
        (enc_standard s.codec) in
    if is_hevc s.codec then u32 (size + 256) else size

unfoldable pub enc_line_size : Shape → ℕ
enc_line_size s =
    hfi_buffer_line_enc s.dst_width s.dst_height false s.num_vpp_pipe (enc_lcu_size s.codec)
      (enc_standard s.codec)

-- HFI_BUFFER_ARP_ENC
abbrev pub enc_arp_size : ℕ
enc_arp_size = 204800

unfoldable pub enc_scratch1_size : Codec → Shape → ℕ
enc_scratch1_size Codec.h264 s =
    hfi_buffer_scratch1_enc s.dst_width s.dst_height 16 1 false s.num_vpp_pipe false
enc_scratch1_size Codec.hevc s =
    hfi_buffer_scratch1_enc s.dst_width s.dst_height 32 1 false s.num_vpp_pipe true
enc_scratch1_size _ s = 0

unfoldable pub enc_scratch2_size : Shape → ℕ
enc_scratch2_size s = hfi_buffer_scratch2_enc s.dst_width s.dst_height 1 false

unfoldable pub enc_vpss_size : Shape → ℕ
enc_vpss_size s = hfi_buffer_vpss_enc s.dst_width s.dst_height s.scaled false false

unfoldable pub dec_buf_size : Shape → BufferType → ℕ
dec_buf_size s BufferType.bin = dec_bin_size s.codec s.src_width s.src_height s.num_vpp_pipe
dec_buf_size s BufferType.comv = dec_comv_size s.codec s.src_width s.src_height
dec_buf_size s BufferType.non_comv =
    dec_non_comv_size s.codec s.src_width s.src_height s.num_vpp_pipe
dec_buf_size s BufferType.line = dec_line_size_of s
dec_buf_size s BufferType.persist = dec_persist_size s.codec
dec_buf_size s BufferType.dpb = dec_dpb_size s
dec_buf_size s BufferType.scratch_1 = dec_scratch1_size s
dec_buf_size s _ = 0

unfoldable pub enc_buf_size : Shape → BufferType → ℕ
enc_buf_size s BufferType.bin = enc_bin_size s
enc_buf_size s BufferType.comv = enc_comv_size s
enc_buf_size s BufferType.non_comv = enc_non_comv_size s
enc_buf_size s BufferType.line = enc_line_size s
enc_buf_size s BufferType.arp = enc_arp_size
enc_buf_size s BufferType.vpss = enc_vpss_size s
enc_buf_size s BufferType.scratch_1 = enc_scratch1_size s.codec s
enc_buf_size s BufferType.scratch_2 = enc_scratch2_size s
enc_buf_size s _ = 0

abbrev pub is_decoder : Domain → Bool
is_decoder Domain.decoder = true
is_decoder Domain.encoder = false

-- The bits of the `int` that the code returns.
unfoldable pub vpu_buf_size : Shape → BufferType → ℕ
vpu_buf_size s t = if is_decoder s.domain then dec_buf_size s t else enc_buf_size s t

-- `fw_min_count` is set by the event that reports a reconfiguration.
unfoldable pub output_min_count : Shape → ℕ
output_min_count s =
    if not (s.fw_min_count == 0)
    then (if split_mode_enabled s.dst_format && is_vp9 s.codec
        then min 4 s.fw_min_count
        else s.fw_min_count)
    else if is_vp9 s.codec
    then 9
    else 4

-- VP9 has no buffers of motion vectors and of hardware configuration.
unfoldable pub has_comv : Codec → Bool
has_comv Codec.h264 = true
has_comv Codec.hevc = true
has_comv _ = false

unfoldable pub vpu_dpb_count : Shape → ℕ
vpu_dpb_count s =
    if split_mode_enabled s.dst_format
    then (if (s.fw_min_count == 0) && s.legacy_vpu5
        then video_max_frame
        else if not (s.fw_min_count == 0)
        then s.fw_min_count
        else s.output_min_count)
    else 0

-- MIN_BUFFERS
abbrev pub min_buffers : ℕ
min_buffers = 4

unfoldable pub vpu_buf_count : Shape → BufferType → ℕ
vpu_buf_count s BufferType.input = min_buffers
vpu_buf_count s BufferType.output = if is_decoder s.domain then output_min_count s else min_buffers
vpu_buf_count s BufferType.bin = 1
vpu_buf_count s BufferType.line = 1
vpu_buf_count s BufferType.persist = 1
vpu_buf_count s BufferType.comv = if has_comv s.codec then 1 else 0
vpu_buf_count s BufferType.non_comv = if has_comv s.codec then 1 else 0
vpu_buf_count s BufferType.scratch_1 = 1
vpu_buf_count s BufferType.scratch_2 = 1
vpu_buf_count s BufferType.vpss = 1
vpu_buf_count s BufferType.arp = 1
vpu_buf_count s BufferType.dpb = vpu_dpb_count s
