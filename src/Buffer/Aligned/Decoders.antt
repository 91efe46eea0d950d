-- ===== src/Buffer/Aligned/Decoders.antt =====
-- The decoder's sizes, for every frame and every number of pipes.
use nabu_iris.Common.{ℕ, ◌*◌, ◌/◌, Bool, arith, refl, u32}
use nabu_iris.Buffer.Decoder.{
  size_h264d_hw_bin_buffer, size_h265d_hw_bin_buffer, hfi_buffer_bin_h264d, hfi_buffer_bin_h265d,
  hfi_buffer_bin_vp9d, hfi_buffer_comv_h264d, hfi_buffer_comv_h265d, hfi_buffer_persist_h264d,
  hfi_buffer_persist_h265d, hfi_buffer_persist_vp9d, hfi_buffer_non_comv_h264d,
  hfi_buffer_non_comv_h265d, comv_h264d_colloc,
}
use nabu_iris.Instance.{Domain}
use nabu_iris.Buffer.{align_u32, BufferType, Codec, Shape}
use nabu_iris.Buffer.Yuv.{get_buffer_size, yuv_buffer_size_qc08c, yuv_buffer_size_qc10c}
use nabu_iris.Buffer.Size.{
  dec_bin_size, dec_comv_size, dec_persist_size, dec_dpb_size, dec_non_comv_size, dec_line_size,
  dec_line_size_of, dec_scratch1_size, dec_buf_size,
}
use nabu_iris.Buffer.Line.{
  vpss_top_line, size_vpss_lb, hfi_buffer_line_h264d, hfi_buffer_line_h265d, hfi_iris3_vp9d_lb_size,
  hfi_buffer_line_vp9d,
}
use nabu_iris.Buffer.Align.{IsDma, u32-IsDma, add-IsDma, if-IsDma, block_0, dma_rules}

bin_h264d-IsDma : (w h p : ℕ) → IsDma (hfi_buffer_bin_h264d w h p)
unfolding hfi_buffer_bin_h264d size_h264d_hw_bin_buffer
bin_h264d-IsDma w h p = search dma_rules

bin_h265d-IsDma : (w h p : ℕ) → IsDma (hfi_buffer_bin_h265d w h p)
unfolding hfi_buffer_bin_h265d size_h265d_hw_bin_buffer
bin_h265d-IsDma w h p = search dma_rules

bin_vp9d-IsDma : (w h p : ℕ) → IsDma (hfi_buffer_bin_vp9d w h p)
unfolding hfi_buffer_bin_vp9d
bin_vp9d-IsDma w h p = search dma_rules

comv_h264d-IsDma : (w h n : ℕ) → IsDma (hfi_buffer_comv_h264d w h n)
unfolding hfi_buffer_comv_h264d comv_h264d_colloc
comv_h264d-IsDma w h n = search dma_rules depth 8

comv_h265d-IsDma : (w h n : ℕ) → IsDma (hfi_buffer_comv_h265d w h n)
unfolding hfi_buffer_comv_h265d
comv_h265d-IsDma w h n = search dma_rules

non_comv_h264d-IsDma : (w h p : ℕ) → IsDma (hfi_buffer_non_comv_h264d w h p)
unfolding hfi_buffer_non_comv_h264d
non_comv_h264d-IsDma w h p = search dma_rules

non_comv_h265d-IsDma : (w h p : ℕ) → IsDma (hfi_buffer_non_comv_h265d w h p)
unfolding hfi_buffer_non_comv_h265d
non_comv_h265d-IsDma w h p = search dma_rules

line_h264d-IsDma : (w h : ℕ) (b : Bool) (p : ℕ) → IsDma (hfi_buffer_line_h264d w h b p)
unfolding hfi_buffer_line_h264d
line_h264d-IsDma w h b p = search dma_rules

line_h265d-IsDma : (w h : ℕ) (b : Bool) (p : ℕ) → IsDma (hfi_buffer_line_h265d w h b p)
unfolding hfi_buffer_line_h265d
line_h265d-IsDma w h b p = search dma_rules

-- Half a multiple of 8 lines, in rows of 64 bytes.
half_lines-IsDma : (h : ℕ) → IsDma (align_u32 (align_u32 h 8 / 2 * 64) 32)
half_lines-IsDma h = record { whole = omega arith }

lines-IsDma : (h : ℕ) → IsDma (u32 (32 * align_u32 h 8))
lines-IsDma h = record { whole = omega arith }

tiles-IsDma : IsDma (31 * 256)
tiles-IsDma = record { whole = refl }

vpss_top-IsDma : (w h : ℕ) → IsDma (vpss_top_line w h)
unfolding vpss_top_line
vpss_top-IsDma w h = search (dma_rules, lines-IsDma, tiles-IsDma)

vpss_lb-IsDma : (w h : ℕ) → IsDma (size_vpss_lb w h)
unfolding size_vpss_lb
vpss_lb-IsDma w h = search (dma_rules, vpss_top-IsDma, half_lines-IsDma) depth 8

vp9d_lb-IsDma : (w h p : ℕ) → IsDma (hfi_iris3_vp9d_lb_size w h p)
unfolding hfi_iris3_vp9d_lb_size
vp9d_lb-IsDma w h p = search dma_rules depth 24 fits 4000

line_vp9d-IsDma : (w h : ℕ) (b : Bool) (p : ℕ) → IsDma (hfi_buffer_line_vp9d w h b p)
unfolding hfi_buffer_line_vp9d
line_vp9d-IsDma w h b p = search (dma_rules, vp9d_lb-IsDma, vpss_lb-IsDma) depth 8

persist-IsDma : (c : Codec) → IsDma (dec_persist_size c)
unfolding dec_persist_size hfi_buffer_persist_h264d hfi_buffer_persist_h265d hfi_buffer_persist_vp9d
persist-IsDma Codec.h264 = record { whole = refl }
persist-IsDma Codec.hevc = record { whole = refl }
persist-IsDma Codec.vp9 = record { whole = refl }
persist-IsDma Codec.other = block_0

bin-IsDma : (c : Codec) (w h p : ℕ) → IsDma (dec_bin_size c w h p)
unfolding dec_bin_size
bin-IsDma Codec.h264 w h p = bin_h264d-IsDma w h p
bin-IsDma Codec.hevc w h p = bin_h265d-IsDma w h p
bin-IsDma Codec.vp9 w h p = bin_vp9d-IsDma w h p
bin-IsDma Codec.other w h p = block_0

comv-IsDma : (c : Codec) (w h : ℕ) → IsDma (dec_comv_size c w h)
unfolding dec_comv_size
comv-IsDma Codec.h264 w h = comv_h264d-IsDma w h 32
comv-IsDma Codec.hevc w h = comv_h265d-IsDma w h 32
comv-IsDma Codec.vp9 w h = block_0
comv-IsDma Codec.other w h = block_0

non_comv-IsDma : (c : Codec) (w h p : ℕ) → IsDma (dec_non_comv_size c w h p)
unfolding dec_non_comv_size
non_comv-IsDma Codec.h264 w h p = non_comv_h264d-IsDma w h p
non_comv-IsDma Codec.hevc w h p = non_comv_h265d-IsDma w h p
non_comv-IsDma Codec.vp9 w h p = block_0
non_comv-IsDma Codec.other w h p = block_0

line-IsDma : (c : Codec) (w h : ℕ) (b : Bool) (p : ℕ) → IsDma (dec_line_size c w h b p)
unfolding dec_line_size
line-IsDma Codec.h264 w h b p = line_h264d-IsDma w h b p
line-IsDma Codec.hevc w h b p = line_h265d-IsDma w h b p
line-IsDma Codec.vp9 w h b p = line_vp9d-IsDma w h b p
line-IsDma Codec.other w h b p = block_0

dpb-IsDma : (d : Domain) (s : Shape) → IsDma (get_buffer_size d s BufferType.dpb)
unfolding get_buffer_size yuv_buffer_size_qc10c yuv_buffer_size_qc08c
dpb-IsDma Domain.decoder s = search dma_rules
dpb-IsDma Domain.encoder s = block_0

ruleset kind_rules = (
  bin-IsDma, comv-IsDma, non_comv-IsDma, line-IsDma, persist-IsDma, dpb-IsDma, u32-IsDma, add-IsDma,
  if-IsDma, block_0,
)

-- Every internal buffer of a decoder.
pub dec_buf_size-IsDma : (s : Shape) (t : BufferType) → IsDma (dec_buf_size s t)
unfolding dec_buf_size dec_line_size_of dec_scratch1_size dec_dpb_size
dec_buf_size-IsDma s BufferType.bin = search kind_rules
dec_buf_size-IsDma s BufferType.comv = search kind_rules
dec_buf_size-IsDma s BufferType.non_comv = search kind_rules
dec_buf_size-IsDma s BufferType.line = search kind_rules
dec_buf_size-IsDma s BufferType.persist = search kind_rules
dec_buf_size-IsDma s BufferType.dpb = search kind_rules
dec_buf_size-IsDma s BufferType.scratch_1 = search kind_rules
dec_buf_size-IsDma s _ = block_0
