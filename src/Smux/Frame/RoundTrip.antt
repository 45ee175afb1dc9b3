-- ===== src/Smux/Frame/RoundTrip.antt =====
-- What the receiver reads from the bytes that the send loop writes for a frame.
use revese_server.Base.{
  zero, suc, drop, All-take, suc, take, get_or, IsByte, length-take, All, ℕ, ◌%◌, ◌<◌, ◌≤◌, ◌≡◌,
  refl, ◌∙◌, ap, some, List, [], ◌∷◌, ◌++◌, arith, length, le→leb, append_assoc,
}
use revese_server.Smux.Frame.{
  cmd_of, version_of, header_size, Frame, IsFrame, frame_bytes, header_bytes, read_frame,
  read_payload, frame, panicked, version, length_of, stream_id_of,
}
use revese_server.Base.Io.{read_full, read_full-append}

pub frame_bytes-eq :
    (f : Frame) → length f.payload ≤ 65536 → frame_bytes f ≡ some (header_bytes f ++ f.payload)
unfolding frame_bytes
frame_bytes-eq f h = rw (le→leb _ 65536 h)

length_of-header_bytes : (f : Frame) → length_of (header_bytes f) ≡ length f.payload % 65536
length_of-header_bytes f = omega arith

stream_id_of-header_bytes : (f : Frame) → f.sid < 4294967296 → stream_id_of (header_bytes f) ≡ f.sid
stream_id_of-header_bytes f h = omega arith

-- The header that was laid out is read back, whatever follows it.
read_frame-header :
    (f : Frame) (rest : List ℕ)
    → f.ver ≡ version
    → f.sid < 4294967296
    → read_frame (header_bytes f ++ rest)
      ≡ read_payload (record f { payload = [] }) (length f.payload % 65536) rest
unfolding read_frame
read_frame-header f rest hv hs =
    rw (read_full-append 8 (header_bytes f) rest refl, read_frame)
      (ground (arith, length_of-header_bytes f, stream_id_of-header_bytes f hs))

short_length : (n : ℕ) → n < 65536 → n % 65536 ≡ n
short_length n h = omega arith

overlong_length : (n : ℕ) → n ≡ 65536 → n % 65536 ≡ 0
overlong_length n h = omega arith

bytes_of-frame_bytes :
    (f : Frame) (bytes rest : List ℕ)
    → length f.payload ≤ 65536
    → frame_bytes f ≡ some bytes
    → bytes ++ rest ≡ header_bytes f ++ (f.payload ++ rest)
bytes_of-frame_bytes f bytes rest h e =
    ap (λ (b : List ℕ). b ++ rest) {y = header_bytes f ++ f.payload} (cc (frame_bytes-eq f h))
    ∙ append_assoc (header_bytes f) f.payload rest

read_payload-append :
    (f : Frame) (p rest : List ℕ)
    → f.payload ≡ []
    → length p < 65528
    → read_payload f (length p) (p ++ rest) ≡ frame (record f { payload = p }) rest
unfolding read_payload
read_payload-append f [] rest e h = ground arith
read_payload-append f (x ∷ p) rest e h =
    rw (read_full-append (length (x ∷ p)) (x ∷ p) rest refl, read_payload) (ground arith)

read_payload_wraps :
    (f : Frame) (len : ℕ) (input : List ℕ)
    → 65528 ≤ len
    → len < 65536
    → read_payload f len input ≡ panicked
unfolding read_payload
read_payload_wraps f len input lo hi = ground arith

-- A frame that the send loop has written is read back whole, and what follows it is left, if its
-- data is shorter than 65528 bytes.
pub read_frame-frame_bytes :
    (f : Frame) (bytes rest : List ℕ)
    → f.ver ≡ version
    → IsFrame f
    → length f.payload < 65528
    → frame_bytes f ≡ some bytes
    → read_frame (bytes ++ rest) ≡ frame f rest
read_frame-frame_bytes f bytes rest hv hf h e =
    rw
      (
        bytes_of-frame_bytes f bytes rest (omega arith) e,
        read_frame-header f (f.payload ++ rest) hv hf.sid_word,
        short_length (length f.payload) (omega arith),
      )
      (read_payload-append (record f { payload = [] }) f.payload rest refl h)

-- With 65528 to 65535 bytes of data, which a checked configuration allows in one frame, the uint16
-- sum wraps, and the receiver panics, whatever the data is.
pub read_frame_panics :
    (f : Frame) (bytes rest : List ℕ)
    → f.ver ≡ version
    → IsFrame f
    → 65528 ≤ length f.payload
    → length f.payload < 65536
    → frame_bytes f ≡ some bytes
    → read_frame (bytes ++ rest) ≡ panicked
read_frame_panics f bytes rest hv hf lo hi e =
    rw
      (
        bytes_of-frame_bytes f bytes rest (omega arith) e,
        read_frame-header f (f.payload ++ rest) hv hf.sid_word,
        short_length (length f.payload) hi,
      )
      (read_payload_wraps _ _ (f.payload ++ rest) lo hi)

-- A frame of exactly 65536 bytes is written with the length 0: the receiver takes the header for a
-- frame with no data, and the data for the frames that follow.
pub read_frame_overlong :
    (f : Frame) (bytes rest : List ℕ)
    → f.ver ≡ version
    → IsFrame f
    → length f.payload ≡ 65536
    → frame_bytes f ≡ some bytes
    → read_frame (bytes ++ rest) ≡ frame (record f { payload = [] }) (f.payload ++ rest)
unfolding read_payload
read_frame_overlong f bytes rest hv hf h e = rw (
  bytes_of-frame_bytes f bytes rest (omega arith) e,
  read_frame-header f (f.payload ++ rest) hv hf.sid_word,
  overlong_length (length f.payload) h,
)

get_or-IsByte : (bs : List ℕ) (i : ℕ) → All IsByte bs → get_or bs i 0 < 256
get_or-IsByte [] i b = omega arith
get_or-IsByte (x ∷ bs) zero (b, more) = b
get_or-IsByte (x ∷ bs) (suc i) (b, more) = get_or-IsByte bs i more

read_payload-short :
    (f g : Frame) (len : ℕ) (input rest : List ℕ)
    → f.payload ≡ []
    → read_payload f len input ≡ frame g rest
    → length g.payload ≤ len
unfolding read_payload read_full
read_payload-short f g len input rest p e = ground (arith, p, e, length-take len input)

-- Whatever the bytes are, the data of a frame is as long as 16 bits can say.
pub read_frame-short :
    (input : List ℕ) (f : Frame) (rest : List ℕ)
    → All IsByte input
    → read_frame input ≡ frame f rest
    → length f.payload < 65536
unfolding read_frame read_full
read_frame-short input f rest b e =
    let h = take header_size input in
    let lo = get_or-IsByte h 2 (All-take IsByte header_size input b) in
    let hi = get_or-IsByte h 3 (All-take IsByte header_size input b) in
    let g : Frame = record {
      ver = version_of h;
      cmd = cmd_of h;
      sid = stream_id_of h;
      payload = [];
    } in
    let short =
      read_payload-short g f (length_of h) (drop header_size input) rest refl (ground (arith, e)) in
    omega (arith, short, lo, hi)
