-- ===== src/Buffer/Aligned/Encoders.antt =====
-- The encoder's sizes, but for its scratch buffers, which are sums of unaligned parts.
use nabu_iris.Common.{ℕ, ◌+◌, ◌-◌, ◌/◌, ◌*◌, ◌^◌, ◌≢◌, Bool, true, false, arith, refl, u32}
use nabu_iris.Buffer.{align_u32, BufferType, Shape}
use nabu_iris.Buffer.Scratch.{hfi_buffer_scratch2_enc}
use nabu_iris.Buffer.Size.{
  enc_non_comv_size, enc_arp_size, enc_buf_size, enc_bin_size, enc_comv_size, enc_line_size,
  enc_vpss_size, enc_scratch2_size,
}
use nabu_iris.Buffer.Encoder.{
  hfi_buffer_bin_enc, hfi_buffer_comv_enc, size_frame_rc_buf_size, size_enc_slice_info_buf,
  enc_bitcnt_buf_size, enc_bitmap_buf_size, size_override_buf, size_ir_buf, hfi_buffer_non_comv_enc,
  size_enc_ref_buffer, size_enc_ten_bit_ref_buffer, ubwc_metadata_plane_stride,
  ubwc_metadata_plane_bufheight, ubwc_metadata_plane_buffer_size, hfi_buffer_dpb_enc,
  hfi_buffer_vpss_enc,
}
use nabu_iris.Buffer.EncoderLine.{
  pipe_alignment, size_linebuff_data, size_left_linebuff_ctrl, size_left_linebuff_recon_pix,
  size_top_linebuff_ctrl_fe, size_left_linebuff_ctrl_fe, size_left_linebuff_metadata_recon_y,
  size_left_linebuff_metadata_recon_uv, size_linebuff_recon_pix, size_line_buf_ctrl,
  size_line_buf_ctrl_id2, size_line_buf_sde, size_vpss_line_buf, size_top_line_buf_first_stg_sao,
  hfi_buffer_line_enc,
}
use nabu_iris.Buffer.Align.{
  IsDma, u32-IsDma, add-IsDma, mul-IsDma, if-IsDma, block_4096, block_0, dma_rules,
}

bin_enc-IsDma : (w h stage lcu p rc : ℕ) → IsDma (hfi_buffer_bin_enc w h stage lcu p rc)
unfolding hfi_buffer_bin_enc
bin_enc-IsDma w h stage lcu p rc = search dma_rules

comv_enc-IsDma : (w h lcu n standard : ℕ) → IsDma (hfi_buffer_comv_enc w h lcu n standard)
unfolding hfi_buffer_comv_enc
comv_enc-IsDma w h lcu n standard = search dma_rules

frame_rc-IsDma : (standard h p : ℕ) → IsDma (size_frame_rc_buf_size standard h p)
unfolding size_frame_rc_buf_size
frame_rc-IsDma standard h p = search dma_rules

module _ (lcus : ℕ) where
  slice_info-IsDma : IsDma (size_enc_slice_info_buf lcus)
  unfolding size_enc_slice_info_buf
  slice_info-IsDma = search dma_rules

  bitcnt-IsDma : IsDma (enc_bitcnt_buf_size lcus)
  unfolding enc_bitcnt_buf_size
  bitcnt-IsDma = search dma_rules

  bitmap-IsDma : IsDma (enc_bitmap_buf_size lcus)
  unfolding enc_bitmap_buf_size
  bitmap-IsDma = search dma_rules

  override-IsDma : IsDma (size_override_buf lcus)
  unfolding size_override_buf
  override-IsDma = search dma_rules

  ir-IsDma : IsDma (size_ir_buf lcus)
  unfolding size_ir_buf
  ir-IsDma = search dma_rules

slice_cmd-IsDma : IsDma 20480
slice_cmd-IsDma = record { whole = refl }

slice_hdr-IsDma : IsDma 6144
slice_hdr-IsDma = record { whole = refl }

bse-IsDma : IsDma 98304
bse-IsDma = record { whole = refl }

lambda-IsDma : IsDma 2816
lambda-IsDma = record { whole = refl }

ruleset unit_rules = (
  frame_rc-IsDma, slice_info-IsDma, bitcnt-IsDma, bitmap-IsDma, override-IsDma, ir-IsDma,
  slice_cmd-IsDma, slice_hdr-IsDma, bse-IsDma, lambda-IsDma, u32-IsDma, add-IsDma,
)

non_comv_enc-IsDma : (w h p lcu standard : ℕ) → IsDma (hfi_buffer_non_comv_enc w h p lcu standard)
unfolding hfi_buffer_non_comv_enc
non_comv_enc-IsDma w h p lcu standard = search unit_rules depth 16 fits 4000

block_multiple : (a k : ℕ) → IsDma (a * (256 * k))
block_multiple a k = record { whole = omega arith }

-- What is aligned to 256 << k is aligned to 256.
pipes-IsDma : (x p : ℕ) → IsDma (align_u32 x (pipe_alignment p))
pipes-IsDma x p = block_multiple (u32 (x + pipe_alignment p - 1) / pipe_alignment p) (2 ^ (p - 1))

line_enc-IsDma :
    (w h : ℕ) (ten : Bool) (p lcu standard : ℕ) → IsDma (hfi_buffer_line_enc w h ten p lcu standard)
unfolding hfi_buffer_line_enc size_linebuff_data size_left_linebuff_ctrl
    size_left_linebuff_recon_pix size_top_linebuff_ctrl_fe size_left_linebuff_ctrl_fe
    size_left_linebuff_metadata_recon_y size_left_linebuff_metadata_recon_uv size_linebuff_recon_pix
    size_line_buf_ctrl size_line_buf_ctrl_id2 size_line_buf_sde size_vpss_line_buf
    size_top_line_buf_first_stg_sao
line_enc-IsDma w h ten p lcu standard = search (dma_rules, pipes-IsDma) depth 30 fits 8000

tiles-IsDma : (a b c : ℕ) → IsDma ((a * 32 + b * 32) * (c * 32))
tiles-IsDma a b c = record { whole = omega arith }

ref_buffer-IsDma : (w h : ℕ) → IsDma (size_enc_ref_buffer w h)
unfolding size_enc_ref_buffer
ref_buffer-IsDma w h =
    u32-IsDma _
      (tiles-IsDma (u32 (h + 32 - 1) / 32) (u32 (h / 2 + 32 - 1) / 32) (u32 (w + 32 - 1) / 32))

metadata-IsDma : (stride h : ℕ) → IsDma (ubwc_metadata_plane_buffer_size stride h)
unfolding ubwc_metadata_plane_buffer_size
metadata-IsDma stride h = search dma_rules

ten_bit_ref_buffer-IsDma : (w h : ℕ) → IsDma (size_enc_ten_bit_ref_buffer w h)
unfolding size_enc_ten_bit_ref_buffer
ten_bit_ref_buffer-IsDma w h = search dma_rules

dpb_enc-IsDma : (w h : ℕ) (ten : Bool) → IsDma (hfi_buffer_dpb_enc w h ten)
unfolding hfi_buffer_dpb_enc
dpb_enc-IsDma w h false = search (dma_rules, ref_buffer-IsDma, metadata-IsDma)
dpb_enc-IsDma w h true = search (dma_rules, ten_bit_ref_buffer-IsDma, metadata-IsDma)

vpss_enc-IsDma : (w h : ℕ) (ds blur ten : Bool) → IsDma (hfi_buffer_vpss_enc w h ds blur ten)
unfolding hfi_buffer_vpss_enc
vpss_enc-IsDma w h ds blur ten = search (dma_rules, dpb_enc-IsDma)

frame-IsDma : (a b c : ℕ) → IsDma ((a * 32 + b * 32) * (c * 128))
frame-IsDma a b c = record { whole = omega arith }

scratch2_enc-IsDma : (w h n : ℕ) → IsDma (hfi_buffer_scratch2_enc w h n false)
unfolding hfi_buffer_scratch2_enc
scratch2_enc-IsDma w h n =
    let frame =
      frame-IsDma (u32 (h + 32 - 1) / 32) (u32 (h / 2 + 32 - 1) / 32) (u32 (w + 128 - 1) / 128) in
    let meta =
      metadata-IsDma (ubwc_metadata_plane_stride w 64 32) (ubwc_metadata_plane_bufheight h 16 8) in
    u32-IsDma _
      (add-IsDma _ _ (mul-IsDma _ _ (add-IsDma _ _ (add-IsDma _ _ frame meta) meta)) block_4096)

slice-IsDma : IsDma 256
slice-IsDma = record { whole = refl }

arp-IsDma : IsDma enc_arp_size
arp-IsDma = record { whole = refl }

enc_non_comv-IsDma : (s : Shape) → IsDma (enc_non_comv_size s)
unfolding enc_non_comv_size
enc_non_comv-IsDma s = search (if-IsDma, u32-IsDma, add-IsDma, non_comv_enc-IsDma, slice-IsDma)

-- Every internal buffer of an encoder but the first scratch buffer of the gen1 firmware.
pub enc_buf_size-IsDma :
    (s : Shape) (t : BufferType) → t ≢ BufferType.scratch_1 → IsDma (enc_buf_size s t)
unfolding enc_buf_size enc_bin_size enc_comv_size enc_line_size enc_vpss_size enc_scratch2_size
enc_buf_size-IsDma s BufferType.bin h = bin_enc-IsDma _ _ _ _ _ _
enc_buf_size-IsDma s BufferType.comv h = comv_enc-IsDma _ _ _ _ _
enc_buf_size-IsDma s BufferType.non_comv h = enc_non_comv-IsDma s
enc_buf_size-IsDma s BufferType.line h = line_enc-IsDma _ _ _ _ _ _
enc_buf_size-IsDma s BufferType.arp h = arp-IsDma
enc_buf_size-IsDma s BufferType.vpss h = vpss_enc-IsDma _ _ _ _ _
enc_buf_size-IsDma s BufferType.scratch_1 h = absurd (h refl)
enc_buf_size-IsDma s BufferType.scratch_2 h = scratch2_enc-IsDma _ _ _
enc_buf_size-IsDma s BufferType.input h = block_0
enc_buf_size-IsDma s BufferType.output h = block_0
enc_buf_size-IsDma s BufferType.dpb h = block_0
enc_buf_size-IsDma s BufferType.persist h = block_0
