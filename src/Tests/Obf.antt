-- ===== src/Tests/Obf.antt =====
-- Runs of lib/streamcoder/flowobf.go.
use revese_server.Base.{
  put_uint16, ℕ, List, ◌≡◌, length, ◌++◌, refl, arith, [], ◌∷◌, true, false, some, zero, suc,
}
use revese_server.Streamcoder.FlowObf.{
  FlowObf, mk_frame, read_frame, obf_frame, obf_panic, chunks, write,
}
use revese_server.Streamcoder.FlowObf.RoundTrip.{
  read_frame-mk_frame, read_frame-mk_frame_panics, read_frame_leaks, header,
}
use revese_server.Streamcoder.FlowObf.Transfer.{Decodes, at_end, at_frame, Progress, read-Progress}
use revese_server.Streamcoder.FlowObf.Send.{Drawn, all_ok, write_transfers}

abbrev obf : FlowObf
obf = record { data_len = 2; noise_max_len = 4; rem = 5 ∷ [] }

abbrev obf_bytes : List ℕ
obf_bytes = 1 ∷ 2 ∷ 3 ∷ []

abbrev obf_noises : List (List ℕ)
obf_noises = (7 ∷ []) ∷ [] ∷ []

abbrev obf_framed : List ℕ
obf_framed = 1 ∷ 0 ∷ 2 ∷ 0 ∷ 7 ∷ 1 ∷ 2 ∷ []

noises-Drawn : Drawn obf obf_noises (chunks (suc (length obf_bytes)) obf.data_len obf_bytes)
unfolding chunks
noises-Drawn = (omega arith, (omega arith, tt))

write_transfers_example :
    (sent : List ℕ) × (write obf obf_noises
        (all_ok (chunks (suc (length obf_bytes)) obf.data_len obf_bytes))
        obf_bytes
      ≡ some (sent, length obf_bytes, false))
    × Decodes obf sent obf_bytes
write_transfers_example =
    write_transfers obf obf_noises obf_bytes (omega arith) (omega arith) (omega arith) noises-Drawn

framed : mk_frame obf (7 ∷ []) (1 ∷ 2 ∷ []) ≡ some obf_framed
unfolding mk_frame
framed = refl

framed-Decodes : Decodes obf obf_framed (1 ∷ 2 ∷ [])
framed-Decodes =
    at_frame (1 ∷ 2 ∷ []) [] []
      (read_frame-mk_frame obf (7 ∷ []) (1 ∷ 2 ∷ []) obf_framed [] (omega arith) framed) at_end refl

read-Progress_example : Progress obf 2 obf_framed (1 ∷ 2 ∷ [])
read-Progress_example = read-Progress obf 2 obf_framed (1 ∷ 2 ∷ []) framed-Decodes

read_frame_leaks_example :
    read_frame obf (header (1 ∷ 2 ∷ 3 ∷ []) (9 ∷ []) ++ (1 ∷ [])) ≡ obf_frame (1 ∷ []) true []
read_frame_leaks_example =
    read_frame_leaks obf (1 ∷ 2 ∷ 3 ∷ []) (9 ∷ []) (1 ∷ []) (omega arith) (omega arith)
      (omega arith) (omega arith)

-- n bytes of noise.
sevens : ℕ → List ℕ
sevens zero = []
sevens (suc n) = 7 ∷ sevens n

length-sevens : (n : ℕ) → length (sevens n) ≡ n
unfolding sevens
length-sevens zero = refl
length-sevens (suc n) = omega (arith, length-sevens n)

abbrev wide : FlowObf
wide = record { data_len = 65535; noise_max_len = 65535; rem = [] }

abbrev wide_framed : List ℕ
wide_framed = put_uint16 (length (sevens 65534)) ++ (put_uint16 1 ++ (sevens 65534 ++ (1 ∷ [])))

wide_made : mk_frame wide (sevens 65534) (1 ∷ []) ≡ some wide_framed
unfolding mk_frame
wide_made = ground (arith, length-sevens 65534)

read_frame-mk_frame_panics_example : read_frame wide (wide_framed ++ []) ≡ obf_panic
read_frame-mk_frame_panics_example =
    read_frame-mk_frame_panics wide (sevens 65534) (1 ∷ []) wide_framed []
      (omega (arith, length-sevens 65534)) (omega arith) (omega (arith, length-sevens 65534))
      (omega arith) wide_made
