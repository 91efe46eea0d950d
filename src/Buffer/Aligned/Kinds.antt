-- ===== src/Buffer/Aligned/Kinds.antt =====
-- The sizes of both domains, and the counts that go with them.
use nabu_iris.Common.{◌≡◌, ◌≢◌, ◌⊎◌, inl, inr, if◌then◌else◌}
use nabu_iris.Instance.{Domain}
use nabu_iris.Buffer.{BufferType, Shape}
use nabu_iris.Buffer.Size.{is_decoder, vpu_buf_size, dec_buf_size, enc_buf_size}
use nabu_iris.Buffer.Align.{IsDma}
use nabu_iris.Buffer.Aligned.Decoders.{dec_buf_size-IsDma}
use nabu_iris.Buffer.Aligned.Encoders.{enc_buf_size-IsDma}

by_domain :
    (d : Domain) (s : Shape) (t : BufferType)
    → (d ≡ Domain.decoder) ⊎ (t ≢ BufferType.scratch_1)
    → IsDma (if is_decoder d then dec_buf_size s t else enc_buf_size s t)
by_domain Domain.decoder s t h = dec_buf_size-IsDma s t
by_domain Domain.encoder s t (inl e) = cc
by_domain Domain.encoder s t (inr h) = enc_buf_size-IsDma s t h

-- The size of every internal buffer, of every kind and codec and for every frame and number of pipes,
-- is a whole number of DMA blocks of 256 bytes, whatever wraps around in its computation; but for the
-- first scratch buffer of an encoder.
pub vpu_buf_size-IsDma :
    (s : Shape) (t : BufferType)
    → (s.domain ≡ Domain.decoder) ⊎ (t ≢ BufferType.scratch_1)
    → IsDma (vpu_buf_size s t)
unfolding vpu_buf_size
vpu_buf_size-IsDma s t h = by_domain s.domain s t h
