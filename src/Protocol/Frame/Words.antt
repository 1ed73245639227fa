-- ===== src/Protocol/Frame/Words.antt =====
-- The header's words: a store and a load are inverse to each other.
use p2p_gpu.Base.{ℕ, ◌<◌, ◌≡◌, ap, some, arith, u32_mod}
use p2p_gpu.Protocol.Frame.{
  read_u16_le, read_u32_le, write_u16_le, write_u32_le, Header, parse_header, encode_header,
}

pub record InRange (h : Header) : Type 0 where
  pub magic_fits : h.magic < u32_mod
  pub protocol_ver_fits : h.protocol_ver < 65536
  pub flags_fit : h.flags < 65536
  pub fb_len_fits : h.fb_len < u32_mod
  pub reserved_fits : h.reserved < u32_mod

pub read_u16_le-write_u16_le : (v : ℕ) → v < 65536 → read_u16_le (write_u16_le v) ≡ v
unfolding read_u16_le write_u16_le
read_u16_le-write_u16_le v h = omega arith

pub read_u32_le-write_u32_le : (v : ℕ) → v < u32_mod → read_u32_le (write_u32_le v) ≡ v
unfolding read_u32_le write_u32_le
read_u32_le-write_u32_le v h = omega arith

-- Every header whose fields fit their widths is read back from its sixteen bytes.
pub parse_header-encode_header : (h : Header) → InRange h → parse_header (encode_header h) ≡ some h
unfolding parse_header encode_header
parse_header-encode_header h r = ap some λ i. record {
  magic = read_u32_le-write_u32_le h.magic r.magic_fits i;
  protocol_ver = read_u16_le-write_u16_le h.protocol_ver r.protocol_ver_fits i;
  flags = read_u16_le-write_u16_le h.flags r.flags_fit i;
  fb_len = read_u32_le-write_u32_le h.fb_len r.fb_len_fits i;
  reserved = read_u32_le-write_u32_le h.reserved r.reserved_fits i;
}
