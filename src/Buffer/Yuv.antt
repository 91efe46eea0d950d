-- ===== src/Buffer/Yuv.antt =====
-- iris_buffer.c: the sizes of the buffers that a client sees, and of the firmware's picture buffers.
use nabu_iris.Common.{
  ℕ, ◌+◌, ◌*◌, ◌/◌, max, Bool, true, false, not, ◌&&◌, ◌||◌, ltb, u32, if◌then◌else◌,
}
use nabu_iris.Instance.{Domain}
use nabu_iris.Buffer.{
  BufferType, PixelFormat, Shape, align_u32, div_round_up_u32, num_mbs_4k, is_vp9,
}

-- A plane of luma and one of interleaved chroma, with the stride of both.
abbrev pub linear_size : ℕ → ℕ → ℕ
linear_size stride h =
    align_u32 (stride * align_u32 h 32 + stride * align_u32 (u32 (h + 1) / 2) 16) 4096

unfoldable pub yuv_buffer_size_nv12 : ℕ → ℕ → ℕ
yuv_buffer_size_nv12 w h = linear_size (align_u32 w 128) h

unfoldable pub yuv_buffer_size_p010 : ℕ → ℕ → ℕ
yuv_buffer_size_p010 w h = linear_size (align_u32 (w * 2) 128) h

-- Two planes of metadata and two of compressed tiles.
unfoldable pub yuv_buffer_size_qc08c : ℕ → ℕ → ℕ
yuv_buffer_size_qc08c w h =
    let y_meta =
      align_u32
        (align_u32 (div_round_up_u32 w (64 / 2)) 64 * align_u32 (div_round_up_u32 h (16 / 2)) 16)
        4096 in
    let y = align_u32 (align_u32 w 128 * align_u32 h 32) 4096 in
    let uv_meta =
      align_u32
        (align_u32 (div_round_up_u32 (w / 2) (64 / 4)) 64
          * align_u32 (div_round_up_u32 (h / 2) (16 / 2)) 16)
        4096 in
    let uv = align_u32 (align_u32 w 128 * align_u32 (h / 2) 32) 4096 in
    align_u32 (y_meta + y + uv_meta + uv) 4096

unfoldable pub yuv_buffer_size_qc10c : ℕ → ℕ → ℕ
yuv_buffer_size_qc10c w h =
    let stride = align_u32 (u32 (w * 4) / 3) 256 in
    let half_w = u32 (w + 1) / 2 in
    let half_h = u32 (h + 1) / 2 in
    let y = align_u32 (stride * align_u32 h 16) 4096 in
    let uv = align_u32 (stride * align_u32 half_h 16) 4096 in
    let y_meta =
      align_u32 (align_u32 (div_round_up_u32 w 48) 64 * align_u32 (div_round_up_u32 h 4) 16) 4096 in
    let uv_meta =
      align_u32
        (align_u32 (div_round_up_u32 half_w 24) 64 * align_u32 (div_round_up_u32 half_h 4) 16)
        4096 in
    align_u32 (y + uv + y_meta + uv_meta + max (16 * 1024 + 8 * 1024) (u32 (stride * 48))) 4096

unfoldable pub dec_bitstream_buffer_size : Shape → ℕ
dec_bitstream_buffer_size s =
    let large = ltb num_mbs_4k s.mbpf in
    let div_factor = (if large then 4 else if is_vp9 s.codec then 1 else 2) in
    let base_res_mbs = (if large then s.max_mbpf else num_mbs_4k) in
    align_u32 (u32 (base_res_mbs * (16 * 16) * 3) / 2 / div_factor) 4096

-- The bytes for a coded frame of an aligned area, before the rate control.
abbrev pub bitstream_share : ℕ → ℕ
bitstream_share area =
    if ltb (4096 * 2176) area
    then u32 (area * 3) / 8
    else if ltb (1280 * 720) area
    then u32 (area * 3) / 4
    else u32 (area * 3)

unfoldable pub enc_bitstream_buffer_size : Shape → ℕ
enc_bitstream_buffer_size s =
    let area = u32 (align_u32 s.dst_width 32 * align_u32 s.dst_height 32) in
    let yuv = u32 (area * 3) / 2 in
    let size = bitstream_share area in
    align_u32
      (if (not s.frame_rc || s.constant_quality) && ltb size yuv then u32 (size * 2) else size) 4096

abbrev pub is_p010 : PixelFormat → Bool
is_p010 PixelFormat.p010 = true
is_p010 _ = false

-- The format of a raw frame is that of the capture side of a decoder, and of the output side of an
-- encoder.
unfoldable pub get_buffer_size : Domain → Shape → BufferType → ℕ
get_buffer_size Domain.decoder s BufferType.input = dec_bitstream_buffer_size s
get_buffer_size Domain.decoder s BufferType.output =
    if is_p010 s.dst_format
    then yuv_buffer_size_p010 s.dst_width s.dst_height
    else yuv_buffer_size_nv12 s.dst_width s.dst_height
get_buffer_size Domain.decoder s BufferType.dpb =
    if is_p010 s.dst_format
    then yuv_buffer_size_qc10c s.dst_width s.dst_height
    else yuv_buffer_size_qc08c s.dst_width s.dst_height
get_buffer_size Domain.decoder s _ = 0
get_buffer_size Domain.encoder s BufferType.input = yuv_buffer_size_nv12 s.src_width s.src_height
get_buffer_size Domain.encoder s BufferType.output = enc_bitstream_buffer_size s
get_buffer_size Domain.encoder s _ = 0
