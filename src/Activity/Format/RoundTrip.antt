-- ===== src/Activity/Format/RoundTrip.antt =====
-- The heads of the sections are read back as they were written.
use vtr.Prelude.{ℕ, ◌≤◌, ap, sym, false, ◌≡◌, refl, List, ◌++◌, length, take-all, le→ltb, arith}
use vtr.Prelude.Bytes.{IsU32, IsU64, to_le, from_le-to_le}
use vtr.Error.{ok}
use vtr.Activity.{SourceFormat, vtr_format, code, from_code}
use vtr.Activity.Format.{
  Header, BlockHead, any_set, byte_at, le32, le64, slice, encode_header, decode_header,
  encode_block_head, decode_block_head,
}

-- The fields have the widths of their types.
pub record HasHeaderWidths (h : Header) : Type 0 where
  pub file_length : IsU64 h.identity.length
  pub toc_crc : IsU32 h.identity.toc_crc
  pub signals : IsU32 h.signals
  pub t_min : IsU64 h.t_min
  pub recording : length h.identity.recording ≡ 16

pub record HasBlockWidths (h : BlockHead) : Type 0 where
  pub start : IsU64 h.start
  pub end : IsU64 h.end
  pub bytes : IsU64 h.bytes
  pub rows : IsU32 h.rows
  pub closed : IsU32 h.closed
  pub order : h.start ≤ h.end
  pub exponent : h.exponent ≡ 0

from_code-code : (f : SourceFormat) → from_code (code f) ≡ ok f
from_code-code vtr_format = refl

decode_header_fields :
    (p : List ℕ) (h : Header)
    → length p ≡ 56
    → any_set (slice 13 3 p ++ slice 20 12 p) ≡ false
    → byte_at p 12 ≡ code h.identity.format
    → le64 p 0 ≡ h.identity.length
    → le32 p 8 ≡ h.identity.toc_crc
    → slice 40 16 p ≡ h.identity.recording
    → le32 p 16 ≡ h.signals
    → le64 p 32 ≡ h.t_min
    → decode_header p ≡ ok h
unfolding decode_header
decode_header_fields p h size clear f e0 e8 e40 e16 e32 =
    rw (size, clear, f, from_code-code h.identity.format, e0, e8, e40, e16, e32)

-- A header that is encoded is decoded to itself.
pub decode_header-encode_header :
    (h : Header) → HasHeaderWidths h → decode_header (encode_header h) ≡ ok h
unfolding encode_header any_set to_le
decode_header-encode_header h w =
    decode_header_fields (encode_header h) h (omega (arith, w.recording)) refl refl
      (from_le-to_le 8 h.identity.length w.file_length)
      (from_le-to_le 4 h.identity.toc_crc w.toc_crc)
      (take-all 16 h.identity.recording (omega (arith, w.recording)))
      (from_le-to_le 4 h.signals w.signals) (from_le-to_le 8 h.t_min w.t_min)

decode_block_fields :
    (p : List ℕ) (h : BlockHead)
    → 40 ≤ length p
    → any_set (slice 33 7 p) ≡ false
    → le64 p 0 ≡ h.start
    → le64 p 8 ≡ h.end
    → le64 p 16 ≡ h.bytes
    → le32 p 24 ≡ h.rows
    → le32 p 28 ≡ h.closed
    → byte_at p 32 ≡ 0
    → h.exponent ≡ 0
    → h.start ≤ h.end
    → decode_block_head p ≡ ok h
unfolding decode_block_head
decode_block_fields p h size clear e0 e8 e16 e24 e28 e32 e order =
    rw (le→ltb (length p) 40 size, e32, clear, e0, e8, e16, e24, e28, le→ltb h.end h.start order)
      (ap (λ t. ok (record h { exponent = t })) (sym e))

-- The head of a block is decoded to itself, whatever follows it, where it is not reversed.
pub decode_block_head-encode_block_head :
    (h : BlockHead) (rest : List ℕ)
    → HasBlockWidths h
    → decode_block_head (encode_block_head h ++ rest) ≡ ok h
unfolding encode_block_head any_set to_le
decode_block_head-encode_block_head h rest w =
    decode_block_fields (encode_block_head h ++ rest) h (omega arith) refl
      (from_le-to_le 8 h.start w.start) (from_le-to_le 8 h.end w.end)
      (from_le-to_le 8 h.bytes w.bytes) (from_le-to_le 4 h.rows w.rows)
      (from_le-to_le 4 h.closed w.closed) w.exponent w.exponent w.order
