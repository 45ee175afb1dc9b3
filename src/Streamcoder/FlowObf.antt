-- ===== src/Streamcoder/FlowObf.antt =====
-- lib/streamcoder/flowobf.go: frames padded with noise, NOISELEN(2) | DATALEN(2) | NOISE | DATA.
pub mod RoundTrip
pub mod Transfer
pub mod Send
pub mod Layer
use revese_server.Base.{
  none, true, ◌++◌, some, false, length, drop, ◌||◌, take, Option, Bool, ◌==◌, ltb, List,
  if◌then◌else◌, ℕ, zero, suc, ◌+◌, ◌-◌, ◌%◌, ◌≤◌, [], ◌∷◌, put_uint16, uint16_at,
}
use revese_server.Base.Io.{read_full}

-- The connection `In` is the list of bytes that it still delivers, an argument of the reads, and the
-- list of what is written to it. `rbuf` and the pooled buffers have data_len + noise_max_len + 4
-- bytes, which bounds their slices; what they held before is never read.
pub record FlowObf : Type 0 where
  pub data_len : ℕ
  pub noise_max_len : ℕ
  pub rem : List ℕ

unfoldable pub new_flow_obf : ℕ → ℕ → FlowObf
new_flow_obf max_data max_noise = record {
  data_len = max_data;
  noise_max_len = max_noise;
  rem = [];
}

abbrev pub buffer_size : FlowObf → ℕ
buffer_size c = c.data_len + c.noise_max_len + 4

-- The bound that mkNoise gives to rand.Intn for dn bytes of data.
abbrev pub noise_bound : FlowObf → ℕ → ℕ
noise_bound c dn = if ltb c.noise_max_len dn then 5 else c.noise_max_len

-- mkFrame with the noise that was drawn, whose length rand.Intn has chosen below its bound. `none` is
-- a panic: rand.Intn(0), or a slice beyond the buffer, buf[4:4+n] or the f.d[:f.l] of Write, which comes later,
-- when the frames before this one have been written.
unfoldable pub mk_frame : FlowObf → List ℕ → List ℕ → Option (List ℕ)
mk_frame c noise bts =
    if noise_bound c (length bts) == 0
    then none
    else if ltb (buffer_size c) (4 + length noise + length bts)
    then none
    else some (put_uint16 (length noise) ++ (put_uint16 (length bts) ++ (noise ++ bts)))

-- What readFrame gives: the data in f.d[:f.l] with whether there was an error, and what is left of
-- the input; or a panic.
pub data ObfFrame : Type 0 where
  obf_frame : List ℕ → Bool → List ℕ → ObfFrame
  obf_panic : ObfFrame

-- The data part of readFrame. The slice bounds are uint16 sums.
unfoldable pub read_data : FlowObf → ℕ → ℕ → List ℕ → ObfFrame
read_data c noise_len data_len input =
    let lo = (4 + noise_len) % 65536 in
    let hi = ((4 + noise_len) % 65536 + data_len) % 65536 in
    if data_len == 0
    then obf_frame [] false input
    else if ltb hi lo || ltb (buffer_size c) hi
    then obf_panic
    else elim (read_full (hi - lo) input) [
      | none ↦ obf_frame input true []
      | some (d, rest) ↦ obf_frame d false rest
    ]

-- The noise part. After an error in the noise f.d is what was read of the noise.
unfoldable pub read_noise : FlowObf → ℕ → ℕ → List ℕ → ObfFrame
read_noise c noise_len data_len input =
    let hi = (4 + noise_len) % 65536 in
    if noise_len == 0
    then read_data c noise_len data_len input
    else if ltb hi 4 || ltb (buffer_size c) hi
    then obf_panic
    else elim (read_full (hi - 4) input) [
      | none ↦ obf_frame input true []
      | some (noise, rest) ↦ read_data c noise_len data_len rest
    ]

-- readFrame.
unfoldable pub read_frame : FlowObf → List ℕ → ObfFrame
read_frame c input = elim (read_full 4 input) [
  | none ↦ obf_frame [] true []
  | some (h, rest) ↦ read_noise c (uint16_at h 0) (uint16_at h 2) rest
]

-- What Read returns: the wrapper, the bytes in the caller's slice, whether there was an error, and
-- what is left of the input.
pub data ObfRead : Type 0 where
  obf_got : FlowObf → List ℕ → Bool → List ℕ → ObfRead
  obf_read_panic : ObfRead

-- Read for a slice of dlen bytes: what remains of the last frame, and if there is room the next one.
unfoldable pub read : FlowObf → ℕ → List ℕ → ObfRead
read c dlen input =
    let out = take dlen c.rem in
    let left = drop dlen c.rem in
    if length out == dlen
    then obf_got (record c { rem = left }) out false input
    else elim (read_frame c input) [
      | obf_panic ↦ obf_read_panic
      | obf_frame d e rest ↦
          let all = left ++ d in
          let room = dlen - length out in
          obf_got (record c { rem = drop room all }) (out ++ take room all) e rest
    ]

-- The chunks of split: DataLen bytes each and the rest. With a positive DataLen each round takes bytes
-- off, so the length of the slice is fuel enough.
unfoldable pub chunks : ℕ → ℕ → List ℕ → List (List ℕ)
chunks zero data_len bts = []
chunks (suc fuel) data_len bts =
    let more = take data_len bts ∷ chunks fuel data_len (drop data_len bts) in
    if ltb data_len (length bts) then more else if ltb 0 (length bts) then bts ∷ [] else []

-- The frames of the chunks, each with its noise; all are made before the first is written.
unfoldable pub mk_frames : FlowObf → List (List ℕ) → List (List ℕ) → Option (List (List ℕ × ℕ))
mk_frames c noises [] = some []
mk_frames c [] (b ∷ bs) = none
mk_frames c (noise ∷ noises) (b ∷ bs) = elim (mk_frame c noise b) [
  | none ↦ none
  | some f ↦ elim (mk_frames c noises bs) [ none ↦ none | some fs ↦ some ((f, length b) ∷ fs) ]
]

unfoldable pub split : FlowObf → List (List ℕ) → List ℕ → Option (List (List ℕ × ℕ))
split c noises bts = mk_frames c noises (chunks (suc (length bts)) c.data_len bts)

-- The loop of Write: `oks` says of each write to the connection whether it succeeds. The answer is
-- what was handed to the connection, the count of the caller's bytes, and whether there was an error;
-- a frame whose write has no outcome counts as one that fails.
unfoldable pub write_frames : List (List ℕ × ℕ) → List Bool → ℕ → List ℕ × ℕ × Bool
write_frames [] oks n = ([], n, false)
write_frames ((f, rl) ∷ fs) [] n = (f, n + rl, true)
write_frames ((f, rl) ∷ fs) (false ∷ oks) n = (f, n + rl, true)
write_frames ((f, rl) ∷ fs) (true ∷ oks) n =
    let (sent, m, e) = write_frames fs oks (n + rl) in (f ++ sent, m, e)

unfoldable pub write : FlowObf → List (List ℕ) → List Bool → List ℕ → Option (List ℕ × ℕ × Bool)
write c noises oks bts = elim (split c noises bts) [
  | none ↦ none
  | some fs ↦ some (write_frames fs oks 0)
]
