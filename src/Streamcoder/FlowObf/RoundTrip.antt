-- ===== src/Streamcoder/FlowObf/RoundTrip.antt =====
-- What readFrame reads from the bytes of mkFrame, and where it cannot.
use revese_server.Base.{
  append_assoc, true, some, refl, [], ◌-◌, ◌*◌, ◌∷◌, ◌/◌, arith, ◌%◌, false, ◌≡◌, ◌≤◌, ◌<◌, ◌++◌,
  length, put_uint16, ◌+◌, List, ℕ,
}
use revese_server.Streamcoder.FlowObf.{
  ℕ, List, FlowObf, mk_frame, read_frame, read_noise, read_data, buffer_size, obf_frame, obf_panic,
}
use revese_server.Base.Io.{read_full-append, read_full_short}

abbrev pub header : List ℕ → List ℕ → List ℕ
header noise bts = put_uint16 (length noise) ++ put_uint16 (length bts)

read_frame-header :
    (c : FlowObf) (noise bts rest : List ℕ)
    → length noise < 65536
    → length bts < 65536
    → read_frame c (header noise bts ++ rest) ≡ read_noise c (length noise) (length bts) rest
unfolding read_frame
read_frame-header c noise bts rest hn hb =
    rw (read_full-append 4 (header noise bts) rest refl, read_frame)
      (ground (arith, low (length noise) hn, low (length bts) hb))
  where
    low : (v : ℕ) → v < 65536 → v % 256 + v / 256 % 256 * 256 ≡ v
    low v h = omega arith

read_data-append :
    (c : FlowObf) (n : ℕ) (bts rest : List ℕ)
    → 4 + n + length bts < 65536
    → 4 + n + length bts ≤ buffer_size c
    → read_data c n (length bts) (bts ++ rest) ≡ obf_frame bts false rest
unfolding read_data
read_data-append c n [] rest h k = ground arith
read_data-append c n (x ∷ bts) rest h k =
    ground (arith, read_full-append (length (x ∷ bts)) (x ∷ bts) rest refl, span)
  where
    span : ((4 + n) % 65536 + length (x ∷ bts)) % 65536 - (4 + n) % 65536 ≡ length (x ∷ bts)
    span = omega arith

read_noise-append :
    (c : FlowObf) (noise bts rest : List ℕ)
    → 4 + length noise + length bts < 65536
    → 4 + length noise + length bts ≤ buffer_size c
    → read_noise c (length noise) (length bts) (noise ++ (bts ++ rest)) ≡ obf_frame bts false rest
unfolding read_noise
read_noise-append c [] bts rest h k = ground (arith, read_data-append c 0 bts rest)
read_noise-append c (x ∷ noise) bts rest h k = ground (
  arith,
  read_full-append (length (x ∷ noise)) (x ∷ noise) (bts ++ rest) refl,
  read_data-append c (length (x ∷ noise)) bts rest h k,
  span,
)
  where
    span : (4 + length (x ∷ noise)) % 65536 - 4 ≡ length (x ∷ noise)
    span = omega arith

mk_frame-eq :
    (c : FlowObf) (noise bts b : List ℕ)
    → mk_frame c noise bts ≡ some b
    → (b ≡ header noise bts ++ (noise ++ bts)) × (4 + length noise + length bts ≤ buffer_size c)
unfolding mk_frame
mk_frame-eq c noise bts b e = ground arith

-- A frame that was made is read back as its data, whatever its noise is and whatever follows it, if
-- its four bytes of header, its noise and its data together are fewer than 65536 bytes.
pub read_frame-mk_frame :
    (c : FlowObf) (noise bts b rest : List ℕ)
    → 4 + length noise + length bts < 65536
    → mk_frame c noise bts ≡ some b
    → read_frame c (b ++ rest) ≡ obf_frame bts false rest
read_frame-mk_frame c noise bts b rest h e =
    let (eb, fits) = mk_frame-eq c noise bts b e in
    rw
      (
        eb,
        append_assoc (header noise bts) (noise ++ bts) rest,
        append_assoc noise bts rest,
        read_frame-header c noise bts (noise ++ (bts ++ rest)) (omega arith) (omega arith),
      )
      (read_noise-append c noise bts rest h fits)

read_data_wraps :
    (c : FlowObf) (n len : ℕ) (input : List ℕ)
    → 4 + n < 65536
    → len < 65536
    → 65536 ≤ 4 + n + len
    → read_data c n len input ≡ obf_panic
unfolding read_data
read_data_wraps c n len input h hl w = ground arith

read_noise_wraps :
    (c : FlowObf) (noise bts rest : List ℕ)
    → length noise < 65536
    → length bts < 65536
    → 65536 ≤ 4 + length noise + length bts
    → 0 < length bts
    → read_noise c (length noise) (length bts) (noise ++ (bts ++ rest)) ≡ obf_panic
unfolding read_noise
read_noise_wraps c [] bts rest hn hb w p =
    ground (arith, read_data_wraps c 0 (length bts) (bts ++ rest))
read_noise_wraps c (x ∷ noise) bts rest hn hb w p = ground (
  arith,
  read_full-append (length (x ∷ noise)) (x ∷ noise) (bts ++ rest) refl,
  read_data_wraps c (length (x ∷ noise)) (length bts) (bts ++ rest),
  span,
)
  where
    span :
        4 + length (x ∷ noise) < 65536 → (4 + length (x ∷ noise)) % 65536 - 4 ≡ length (x ∷ noise)
    span h = omega arith

-- A frame with data whose header, noise and data make 65536 bytes or more, with noise and data of at
-- most 65535 bytes each, can be made, and makes the reader panic: the uint16 slice bounds wrap.
pub read_frame-mk_frame_panics :
    (c : FlowObf) (noise bts b rest : List ℕ)
    → length noise < 65536
    → length bts < 65536
    → 65536 ≤ 4 + length noise + length bts
    → 0 < length bts
    → mk_frame c noise bts ≡ some b
    → read_frame c (b ++ rest) ≡ obf_panic
read_frame-mk_frame_panics c noise bts b rest hn hb w p e =
    let (eb, fits) = mk_frame-eq c noise bts b e in
    rw
      (
        eb,
        append_assoc (header noise bts) (noise ++ bts) rest,
        append_assoc noise bts rest,
        read_frame-header c noise bts (noise ++ (bts ++ rest)) hn hb,
      )
      (read_noise_wraps c noise bts rest hn hb w p)

read_noise_cut :
    (c : FlowObf) (n len : ℕ) (cut : List ℕ)
    → length cut < n
    → 4 + n < 65536
    → 4 + n ≤ buffer_size c
    → read_noise c n len cut ≡ obf_frame cut true []
unfolding read_noise
read_noise_cut c n len cut h hw hc = ground (arith, read_full_short ((4 + n) % 65536 - 4) cut)

-- Where the connection ends inside the noise of a frame, readFrame returns the noise that did arrive
-- as data, with the error.
pub read_frame_leaks :
    (c : FlowObf) (noise bts cut : List ℕ)
    → length cut < length noise
    → 4 + length noise < 65536
    → 4 + length noise ≤ buffer_size c
    → length bts < 65536
    → read_frame c (header noise bts ++ cut) ≡ obf_frame cut true []
read_frame_leaks c noise bts cut h hw hc hb =
    rw (read_frame-header c noise bts cut (omega arith) hb)
      (read_noise_cut c (length noise) (length bts) cut h hw hc)
