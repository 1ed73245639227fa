-- ===== src/Protocol/Frame.antt =====
-- The 16-byte frame header and the split of a frame into its regions (src/protocol/frame.cpp,
-- include/p2pgpu/protocol/frame.hpp), with the encoder of src/protocol/encode.cpp. A byte is a
-- number below 256; the address of a frame's first byte is an argument where the code reads it.
pub mod Words
pub mod RoundTrip
pub mod Examples
use p2p_gpu.Base.{
  ℕ, ◌+◌, ◌*◌, ◌/◌, ◌%◌, String, Bool, true, false, not, ◌&&◌, Option, none, some, List, [], ◌∷◌,
  ◌++◌, ltb, ◌==◌, if◌then◌else◌, u32_mod, length, get_or, take, drop,
}
use p2p_gpu.Protocol.Limits.{
  protocol_version, frame_magic, header_bytes, frame_alignment, max_envelope_bytes,
  max_output_bytes,
}
use p2p_gpu.Protocol.Errors.{
  version_mismatch, malformed_message, orphan_payload, payload_too_large, internal, Error,
  make_error, make_fatal, Result, ok, err, ◌>>=◌, ◌>>◌, fail_if,
}

-- Little-endian loads and stores; the bytes of a load do not overlap, so `|` is a sum.
unfoldable pub read_u16_le : List ℕ → ℕ
read_u16_le b = get_or b 0 0 + get_or b 1 0 * 256

unfoldable pub read_u32_le : List ℕ → ℕ
read_u32_le b = get_or b 0 0 + get_or b 1 0 * 256 + get_or b 2 0 * 65536 + get_or b 3 0 * 16777216

unfoldable pub write_u16_le : ℕ → List ℕ
write_u16_le v = v % 256 ∷ v / 256 % 256 ∷ []

unfoldable pub write_u32_le : ℕ → List ℕ
write_u32_le v = v % 256 ∷ v / 256 % 256 ∷ v / 65536 % 256 ∷ v / 16777216 % 256 ∷ []

pub record Header : Type 0 where
  pub magic : ℕ
  pub protocol_ver : ℕ
  pub flags : ℕ
  pub fb_len : ℕ
  pub reserved : ℕ

-- Bit 0 of the flags.
abbrev pub payload_follows : Header → Bool
payload_follows h = not (h.flags % 2 == 0)

-- `bytes.subspan<offset, count>()`.
abbrev pub subspan : List ℕ → ℕ → ℕ → List ℕ
subspan bytes offset count = take count (drop offset bytes)

unfoldable pub parse_header : List ℕ → Option Header
unfolding read_u16_le read_u32_le
parse_header bytes =
    if not (length bytes == header_bytes)
    then none
    else some (record {
      magic = read_u32_le (subspan bytes 0 4);
      protocol_ver = read_u16_le (subspan bytes 4 2);
      flags = read_u16_le (subspan bytes 6 2);
      fb_len = read_u32_le (subspan bytes 8 4);
      reserved = read_u32_le (subspan bytes 12 4);
    })

unfoldable pub encode_header : Header → List ℕ
unfolding write_u16_le write_u32_le
encode_header h =
    write_u32_le h.magic
    ++ (write_u16_le h.protocol_ver
        ++ (write_u16_le h.flags ++ (write_u32_le h.fb_len ++ write_u32_le h.reserved)))

pub record FrameRegions : Type 0 where
  pub header : Header
  pub fb : List ℕ
  pub payload : List ℕ

abbrev is_empty : List ℕ → Bool
is_empty [] = true
is_empty (b ∷ bs) = false

malformed : String → Error
malformed = make_error malformed_message

-- Steps 3 to 8 of `SplitFrame`, once the header is parsed.
unfoldable pub split_regions : Header → List ℕ → Result FrameRegions
unfolding malformed
split_regions h frame = do
  fail_if (not (h.magic == frame_magic)) (malformed "bad magic")
  fail_if (not (h.protocol_ver == protocol_version))
      (make_fatal version_mismatch "protocol version mismatch")
  fail_if (ltb max_envelope_bytes h.fb_len)
      (make_error payload_too_large "fb_len exceeds kMaxEnvelopeBytes")
  fail_if (ltb (length frame) (header_bytes + h.fb_len))
      (malformed "frame shorter than declared fb_len")
  let payload = drop (header_bytes + h.fb_len) frame
  fail_if (payload_follows h && is_empty payload)
      (make_error orphan_payload "payload_follows set but no payload")
  fail_if (not (payload_follows h) && not (is_empty payload))
      (make_error orphan_payload "trailing bytes without payload_follows")
  fail_if (not (h.reserved == 0)) (malformed "reserved header field is not zero")
  fail_if (ltb max_output_bytes (length payload))
      (make_error payload_too_large "payload exceeds kMaxOutputBytes")
  ok (record { header = h; fb = subspan frame header_bytes h.fb_len; payload = payload })

-- The match on the parsed header of `SplitFrame`.
parsed_regions : Option Header → List ℕ → Result FrameRegions
unfolding malformed
parsed_regions none frame = err (malformed "header parse failed")
parsed_regions (some h) frame = split_regions h frame

unfoldable pub split_frame : ℕ → List ℕ → Result FrameRegions
unfolding malformed parsed_regions
split_frame address frame = do
  fail_if (not (is_empty frame) && not (address % frame_alignment == 0))
      (make_error internal "frame buffer is not 8-byte aligned")
  fail_if (ltb (length frame) header_bytes) (malformed "frame shorter than header")
  parsed_regions (parse_header (take header_bytes frame)) frame

-- The header that `EncodeFrame` writes; `fb_len` is cut to 32 bits.
unfoldable pub frame_header : List ℕ → List ℕ → Header
frame_header envelope payload = record {
  magic = frame_magic;
  protocol_ver = protocol_version;
  flags = if is_empty payload then 0 else 1;
  fb_len = length envelope % u32_mod;
  reserved = 0;
}

unfoldable pub encode_frame : List ℕ → List ℕ → List ℕ
unfolding frame_header encode_header
encode_frame envelope payload =
    encode_header (frame_header envelope payload) ++ (envelope ++ payload)
