-- ===== src/Tests/Wire.antt =====
-- Runs of lib/smux/frame.go, mux.go and the split of stream.go.
use revese_server.Base.{
  ℕ, zero, suc, ◌≡◌, refl, arith, List, [], ◌∷◌, ◌++◌, some, All, length, IsByte,
}
use revese_server.Smux.Frame.{
  Frame, frame_bytes, read_frame, frame, panicked, cmd_psh, new_frame, IsFrame, header_bytes,
}
use revese_server.Smux.Frame.RoundTrip.{
  read_frame-frame_bytes, read_frame_panics, read_frame_overlong, frame_bytes-eq,
}
use revese_server.Smux.Config.{default_config, verify_config, accepted}
use revese_server.Smux.Stream.{Stream, new_stream, split, split_loop}
use revese_server.Smux.Stream.Split.{payloads}
use revese_server.Base.Int.{pos}

abbrev hello : Frame
hello = record { ver = 1; cmd = cmd_psh; sid = 259; payload = 104 ∷ 105 ∷ [] }

abbrev hello_bytes : List ℕ
hello_bytes = 1 ∷ 2 ∷ 2 ∷ 0 ∷ 3 ∷ 1 ∷ 0 ∷ 0 ∷ 104 ∷ 105 ∷ []

hello-IsFrame : IsFrame hello
hello-IsFrame = record {
  ver_byte = omega arith;
  cmd_byte = omega arith;
  sid_word = omega arith;
  data_bytes = omega arith;
}

frame_bytes-hello : frame_bytes hello ≡ some hello_bytes
unfolding frame_bytes
frame_bytes-hello = refl

read_frame-frame_bytes_example : read_frame (hello_bytes ++ (7 ∷ [])) ≡ frame hello (7 ∷ [])
read_frame-frame_bytes_example =
    read_frame-frame_bytes hello hello_bytes (7 ∷ []) refl hello-IsFrame (omega arith)
      frame_bytes-hello

-- n zero bytes.
zeros : ℕ → List ℕ
zeros zero = []
zeros (suc n) = 0 ∷ zeros n

length-zeros : (n : ℕ) → length (zeros n) ≡ n
unfolding zeros
length-zeros zero = refl
length-zeros (suc n) = omega (arith, length-zeros n)

zeros-IsByte : (n : ℕ) → All IsByte (zeros n)
unfolding zeros
zeros-IsByte zero = tt
zeros-IsByte (suc n) = (omega arith, zeros-IsByte n)

zero_frame : ℕ → Frame
zero_frame n = record { ver = 1; cmd = cmd_psh; sid = 3; payload = zeros n }

zero_frame-IsFrame : (n : ℕ) → IsFrame (zero_frame n)
unfolding zero_frame
zero_frame-IsFrame n = record {
  ver_byte = omega arith;
  cmd_byte = omega arith;
  sid_word = omega arith;
  data_bytes = zeros-IsByte n;
}

-- The payload of a zero frame has the length that was asked for.
length-zero_frame : (n : ℕ) → length (zero_frame n).payload ≡ n
unfolding zero_frame
length-zero_frame n = length-zeros n

ver-zero_frame : (n : ℕ) → (zero_frame n).ver ≡ 1
unfolding zero_frame
ver-zero_frame n = refl

read_frame_panics_example :
    read_frame ((header_bytes (zero_frame 65530) ++ (zero_frame 65530).payload) ++ []) ≡ panicked
read_frame_panics_example =
    read_frame_panics (zero_frame 65530) _ [] (ver-zero_frame 65530) (zero_frame-IsFrame 65530)
      (omega (arith, length-zero_frame 65530)) (omega (arith, length-zero_frame 65530))
      (frame_bytes-eq (zero_frame 65530) (omega (arith, length-zero_frame 65530)))

read_frame_overlong_example :
    read_frame ((header_bytes (zero_frame 65536) ++ (zero_frame 65536).payload) ++ [])
    ≡ frame (record (zero_frame 65536) { payload = [] }) ((zero_frame 65536).payload ++ [])
read_frame_overlong_example =
    read_frame_overlong (zero_frame 65536) _ [] (ver-zero_frame 65536) (zero_frame-IsFrame 65536)
      (length-zero_frame 65536)
      (frame_bytes-eq (zero_frame 65536) (omega (arith, length-zero_frame 65536)))

abbrev small_stream : Stream
small_stream = new_stream 3 2 (pos 0) (pos 100) 0

split_runs : payloads (split small_stream (1 ∷ 2 ∷ 3 ∷ []) cmd_psh 3) ≡ 1 ∷ 2 ∷ 3 ∷ []
unfolding split split_loop new_stream new_frame
split_runs = refl

verify_config_default : verify_config default_config ≡ accepted
unfolding verify_config default_config
verify_config_default = refl
