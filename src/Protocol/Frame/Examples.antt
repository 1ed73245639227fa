-- ===== src/Protocol/Frame/Examples.antt =====
-- Runs of the frame code, and its theorems at concrete frames.
use p2p_gpu.Base.{ℕ, ◌%◌, ◌≡◌, refl, false, some, List, [], ◌∷◌, arith, take}
use p2p_gpu.Protocol.Limits.{header_bytes, frame_alignment}
use p2p_gpu.Protocol.Errors.{version_mismatch, make_fatal, ok, has_value}
use p2p_gpu.Protocol.Frame.{
  parse_header, FrameRegions, split_regions, split_frame, frame_header, encode_frame,
}
use p2p_gpu.Protocol.Frame.RoundTrip.{
  split_frame-encode_frame, IsSplit, split_frame_sound, split_frame_fatal,
}

abbrev small_frame : List ℕ
unfolding encode_frame
small_frame = encode_frame (1 ∷ 2 ∷ 3 ∷ []) (9 ∷ [])

abbrev small_regions : FrameRegions
unfolding frame_header
small_regions = record {
  header = frame_header (1 ∷ 2 ∷ 3 ∷ []) (9 ∷ []);
  fb = 1 ∷ 2 ∷ 3 ∷ [];
  payload = 9 ∷ [];
}

-- A header shorter than sixteen bytes is refused, and so is an unaligned frame.
split_short : has_value (split_frame 8 (80 ∷ 71 ∷ [])) ≡ false
unfolding split_frame
split_short = refl

split_unaligned : has_value (split_frame 12 small_frame) ≡ false
unfolding split_frame encode_frame
split_unaligned = refl

split_frame-encode_frame_example : split_frame 8 small_frame ≡ ok small_regions
unfolding encode_frame frame_header
split_frame-encode_frame_example =
    split_frame-encode_frame 8 (1 ∷ 2 ∷ 3 ∷ []) (9 ∷ []) refl (omega arith) (omega arith)

split_frame_sound_example :
    (8 % frame_alignment ≡ 0)
    × (parse_header (take header_bytes small_frame) ≡ some small_regions.header)
    × IsSplit small_frame small_regions
unfolding encode_frame frame_header
split_frame_sound_example =
    split_frame_sound 8 small_frame small_regions split_frame-encode_frame_example

-- Version 2 in place of 1.
abbrev other_version : List ℕ
other_version = 80 ∷ 71 ∷ 50 ∷ 80 ∷ 2 ∷ 0 ∷ 0 ∷ 0 ∷ 0 ∷ 0 ∷ 0 ∷ 0 ∷ 0 ∷ 0 ∷ 0 ∷ 0 ∷ []

split_frame_fatal_example : version_mismatch ≡ version_mismatch
unfolding split_frame parse_header split_regions
split_frame_fatal_example =
    split_frame_fatal 8 other_version (make_fatal version_mismatch "protocol version mismatch") refl
      refl
