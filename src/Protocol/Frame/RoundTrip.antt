-- ===== src/Protocol/Frame/RoundTrip.antt =====
-- Splitting a frame and building one.
use native.Mathlib.Nat.{zero-add, add-zero, suc-add}
use p2p_gpu.Base.{
  ℕ, zero, suc, ◌+◌, ◌%◌, ◌≤◌, ◌<◌, ◌≡◌, refl, sym, ap, subst, ◌∙◌, ◌⊎◌, inl, inr, true, false,
  some, List, [], ◌∷◌, ◌++◌, arith, Option-cases, length, take, drop, length-append, length-take,
  length-drop, take-append-drop,
}
use p2p_gpu.Protocol.Limits.{
  protocol_version, frame_magic, header_bytes, frame_alignment, max_envelope_bytes,
  max_output_bytes,
}
use p2p_gpu.Protocol.Errors.{version_mismatch, Error, ok, err}
use p2p_gpu.Protocol.Frame.Words.{InRange, parse_header-encode_header}
use p2p_gpu.Protocol.Frame.{
  write_u16_le, write_u32_le, Header, payload_follows, subspan, parse_header, encode_header,
  FrameRegions, split_regions, split_frame, frame_header, encode_frame,
}

take-length : {A : Type 0} (xs ys : List A) → take (length xs) (xs ++ ys) ≡ xs
take-length [] ys = refl
take-length (x ∷ xs) ys = ap (◌∷◌ x) (take-length xs ys)

drop-length : {A : Type 0} (xs ys : List A) → drop (length xs) (xs ++ ys) ≡ ys
drop-length [] ys = refl
drop-length (x ∷ xs) ys = drop-length xs ys

-- Sixteen header bytes in front move every offset by sixteen.
drop-encode_header :
    (h : Header) (n : ℕ) (rest : List ℕ)
    → drop (header_bytes + n) (encode_header h ++ rest) ≡ drop n rest
unfolding encode_header write_u32_le write_u16_le
drop-encode_header h n rest =
    let e : header_bytes + n
        ≡ suc (
            suc (
              suc
                (suc (suc (suc (suc (suc (suc (suc (suc (suc (suc (suc (suc (suc n))))))))))))))) =
      omega arith in
    rw e

-- What passes every check of `SplitFrame` after the parse.
pub record IsAccepted (h : Header) (frame : List ℕ) : Type 0 where
  pub magic : h.magic ≡ frame_magic
  pub version : h.protocol_ver ≡ protocol_version
  pub bounded : h.fb_len ≤ max_envelope_bytes
  pub long_enough : header_bytes + h.fb_len ≤ length frame
  pub flag_agrees :
      ((payload_follows h ≡ true) × (0 < length (drop (header_bytes + h.fb_len) frame)))
      ⊎ ((payload_follows h ≡ false) × (drop (header_bytes + h.fb_len) frame ≡ []))
  pub reserved : h.reserved ≡ 0
  pub payload_bounded : length (drop (header_bytes + h.fb_len) frame) ≤ max_output_bytes

abbrev regions_of : Header → List ℕ → FrameRegions
regions_of h frame = record {
  header = h;
  fb = subspan frame header_bytes h.fb_len;
  payload = drop (header_bytes + h.fb_len) frame;
}

split_regions_ok :
    (h : Header) (frame : List ℕ) (payload : List ℕ)
    → drop (header_bytes + h.fb_len) frame ≡ payload
    → IsAccepted h frame
    → split_regions h frame ≡ ok (regions_of h frame)
unfolding split_regions
split_regions_ok h frame [] e a = ground arith
split_regions_ok h frame (b ∷ bs) e a = ground arith

split_regions-IsAccepted :
    (h : Header) (frame payload : List ℕ) (r : FrameRegions)
    → drop (header_bytes + h.fb_len) frame ≡ payload
    → split_regions h frame ≡ ok r
    → IsAccepted h frame × (r ≡ regions_of h frame)
unfolding split_regions
split_regions-IsAccepted h frame [] r e s = ground arith
split_regions-IsAccepted h frame (b ∷ bs) r e s = ground arith

-- An aligned frame that begins with a header is judged by that header.
split_frame-encode_header :
    (address : ℕ) (h : Header) (rest : List ℕ)
    → address % frame_alignment ≡ 0
    → InRange h
    → split_frame address (encode_header h ++ rest) ≡ split_regions h (encode_header h ++ rest)
unfolding split_frame encode_header
split_frame-encode_header address h rest aligned r =
    let parsed = parse_header-encode_header h r in ground (arith, parsed)

frame_header-InRange : (envelope payload : List ℕ) → InRange (frame_header envelope payload)
unfolding frame_header
frame_header-InRange envelope payload = ground arith

encode_frame_lem :
    (envelope payload : List ℕ)
    → encode_frame envelope payload
      ≡ encode_header (frame_header envelope payload) ++ (envelope ++ payload)
unfolding encode_frame
encode_frame_lem envelope payload = refl

-- The payload region of a frame with a header in front.
payload_region :
    (h : Header) (envelope payload : List ℕ)
    → h.fb_len ≡ length envelope
    → drop (header_bytes + h.fb_len) (encode_header h ++ (envelope ++ payload)) ≡ payload
payload_region h envelope payload e =
    drop-encode_header h h.fb_len (envelope ++ payload) ∙ rw e (drop-length envelope payload)

fb_region :
    (h : Header) (envelope payload : List ℕ)
    → h.fb_len ≡ length envelope
    → subspan (encode_header h ++ (envelope ++ payload)) header_bytes h.fb_len ≡ envelope
fb_region h envelope payload e =
    ap (take h.fb_len) (drop-encode_header h 0 (envelope ++ payload))
    ∙ rw e (take-length envelope payload)

length-encode_header : (h : Header) → length (encode_header h) ≡ 16
unfolding encode_header write_u32_le write_u16_le
length-encode_header h = refl

fb_len-frame_header :
    (envelope payload : List ℕ)
    → length envelope ≤ max_envelope_bytes
    → (frame_header envelope payload).fb_len ≡ length envelope
unfolding frame_header
fb_len-frame_header envelope payload he = omega arith

abbrev built : List ℕ → List ℕ → List ℕ
built envelope payload = encode_header (frame_header envelope payload) ++ (envelope ++ payload)

length-built :
    (envelope payload : List ℕ)
    → length (built envelope payload) ≡ 16 + (length envelope + length payload)
length-built envelope payload =
    let h = frame_header envelope payload in
    omega (
      arith,
      length-append (encode_header h) (envelope ++ payload),
      length-append envelope payload,
      length-encode_header h,
    )

flag-frame_header :
    (envelope payload : List ℕ)
    → ((payload_follows (frame_header envelope payload) ≡ true) × (0 < length payload))
      ⊎ ((payload_follows (frame_header envelope payload) ≡ false) × (payload ≡ []))
unfolding frame_header
flag-frame_header envelope [] = inr (refl, refl)
flag-frame_header envelope (b ∷ bs) = inl (refl, omega arith)

frame_header-IsAccepted :
    (envelope payload : List ℕ)
    → length envelope ≤ max_envelope_bytes
    → length payload ≤ max_output_bytes
    → IsAccepted (frame_header envelope payload) (built envelope payload)
frame_header-IsAccepted envelope payload he hp =
    let fits = fb_len-frame_header envelope payload he in
    let region = payload_region (frame_header envelope payload) envelope payload fits in
    record {
      magic = unfold frame_header in refl;
      version = unfold frame_header in refl;
      bounded = omega arith;
      long_enough = omega (arith, length-built envelope payload);
      flag_agrees = rw region (flag-frame_header envelope payload);
      reserved = unfold frame_header in refl;
      payload_bounded = rw region hp;
    }

-- A frame built by `EncodeFrame` around an envelope and a payload within their limits, at an aligned
-- address, is split back into its header, the envelope and the payload.
pub split_frame-encode_frame :
    (address : ℕ) (envelope payload : List ℕ)
    → address % frame_alignment ≡ 0
    → length envelope ≤ max_envelope_bytes
    → length payload ≤ max_output_bytes
    → split_frame address (encode_frame envelope payload)
      ≡ ok (record { header = frame_header envelope payload; fb = envelope; payload = payload })
split_frame-encode_frame address envelope payload aligned he hp =
    let h = frame_header envelope payload in
    let fits = fb_len-frame_header envelope payload he in
    rw (encode_frame_lem envelope payload) (
      split_frame-encode_header address h _ aligned (frame_header-InRange envelope payload)
      ∙ split_regions_ok h _ payload (payload_region h envelope payload fits)
          (frame_header-IsAccepted envelope payload he hp)
      ∙ λ i. ok (record {
        header = h;
        fb = fb_region h envelope payload fits i;
        payload = payload_region h envelope payload fits i;
      }))

split_frame_parsed :
    (address : ℕ) (frame : List ℕ) (r : FrameRegions)
    → split_frame address frame ≡ ok r
    → (h : Header) × (address % frame_alignment ≡ 0)
      × (parse_header (take header_bytes frame) ≡ some h)
      × (split_regions h frame ≡ ok r)
unfolding split_frame
split_frame_parsed address [] r e = cc
split_frame_parsed address (b ∷ bs) r e =
    elim (Option-cases (parse_header (take header_bytes (b ∷ bs)))) [
      | inl bad ↦ absurd (ground arith)
      | inr (h, good) ↦ (h, ground arith, good, ground arith)
    ]

drop-add : {A : Type 0} (m n : ℕ) (xs : List A) → drop (m + n) xs ≡ drop n (drop m xs)
drop-add zero n xs = rw zero-add
drop-add (suc m) zero [] = rw add-zero
drop-add (suc m) (suc n) [] = rw suc-add
drop-add (suc m) n (x ∷ xs) = rw suc-add (drop-add m n xs)

regions_partition :
    (n : ℕ) (frame : List ℕ)
    → take header_bytes frame ++ (subspan frame header_bytes n ++ drop (header_bytes + n) frame)
      ≡ frame
regions_partition n frame =
    rw (drop-add 16 n frame, take-append-drop n (drop 16 frame)) (take-append-drop 16 frame)

length-subspan :
    (n : ℕ) (frame : List ℕ)
    → header_bytes + n ≤ length frame
    → length (subspan frame header_bytes n) ≡ n
length-subspan n frame h =
    omega (arith, length-take n (drop header_bytes frame), length-drop header_bytes frame)

-- What is taken for the regions of an accepted frame.
pub record IsSplit (frame : List ℕ) (r : FrameRegions) : Type 0 where
  pub accepted : IsAccepted r.header frame
  pub partition : take header_bytes frame ++ (r.fb ++ r.payload) ≡ frame
  pub declared : length r.fb ≡ r.header.fb_len
  pub fb_bounded : length r.fb ≤ max_envelope_bytes
  pub payload_bounded : length r.payload ≤ max_output_bytes
  pub announced :
      ((payload_follows r.header ≡ true) × (0 < length r.payload))
      ⊎ ((payload_follows r.header ≡ false) × (r.payload ≡ []))

regions_of-IsSplit :
    (h : Header) (frame : List ℕ) → IsAccepted h frame → IsSplit frame (regions_of h frame)
regions_of-IsSplit h frame a = record {
  accepted = a;
  partition = regions_partition h.fb_len frame;
  declared = length-subspan h.fb_len frame a.long_enough;
  fb_bounded = omega (arith, length-subspan h.fb_len frame a.long_enough, a.bounded);
  payload_bounded = a.payload_bounded;
  announced = a.flag_agrees;
}

-- Whatever is accepted is aligned and is exactly its three regions in order: the header, which parses
-- and has the magic number and the version of this protocol, the envelope of the length that the header
-- declares, and the payload, which is present exactly when the header announces one. Envelope and
-- payload are within their limits.
pub split_frame_sound :
    (address : ℕ) (frame : List ℕ) (r : FrameRegions)
    → split_frame address frame ≡ ok r
    → (address % frame_alignment ≡ 0)
      × (parse_header (take header_bytes frame) ≡ some r.header)
      × IsSplit frame r
split_frame_sound address frame r e =
    let (h, aligned, parsed, split) = split_frame_parsed address frame r e in
    let (accepted, eq) = split_regions-IsAccepted h frame _ r refl split in
    subst
      (λ q.
        (address % frame_alignment ≡ 0)
        × (parse_header (take header_bytes frame) ≡ some q.header)
        × IsSplit frame q)
      (sym eq) (aligned, parsed, regions_of-IsSplit h frame accepted)

-- The only fatal refusal is that of another protocol version.
pub split_frame_fatal :
    (address : ℕ) (frame : List ℕ) (x : Error)
    → split_frame address frame ≡ err x
    → x.fatal ≡ true
    → x.code ≡ version_mismatch
unfolding split_frame split_regions
split_frame_fatal address frame x e f = ground arith
