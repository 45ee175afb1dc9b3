-- ===== src/Streamcoder/FlowObf/Send.antt =====
-- What Write puts on the connection.
use revese_server.Base.{
  concat, subst, ap, length-append, length-eq_zero, append-nil, take-append-drop, length-drop,
  length-take, put_uint16, ◌+◌, drop, arith, some, All, ◌≤◌, ◌++◌, ◌≡◌, ◌<◌, Bool, length, List, ℕ,
  refl, [], ◌∷◌, zero, suc, true, false,
}
use revese_server.Streamcoder.FlowObf.{
  FlowObf, mk_frame, buffer_size, noise_bound, chunks, mk_frames, split, write_frames, write,
}
use revese_server.Streamcoder.FlowObf.RoundTrip.{read_frame-mk_frame}
use revese_server.Streamcoder.FlowObf.Transfer.{Decodes, at_end, at_frame}

-- Each chunk has a noise whose length rand.Intn can give for it.
abbrev pub Drawn : FlowObf → List (List ℕ) → List (List ℕ) → Type 0
Drawn c ns [] = Unit {0}
Drawn c [] (b ∷ bs) = ⊥
Drawn c (n ∷ ns) (b ∷ bs) = (length n < noise_bound c (length b)) × Drawn c ns bs

abbrev IsChunk : ℕ → List ℕ → Type 0
IsChunk n b = (0 < length b) × (length b ≤ n)

-- Every write to the connection succeeds.
abbrev pub all_ok : List (List ℕ) → List Bool
all_ok [] = []
all_ok (b ∷ bs) = true ∷ all_ok bs

chunks-concat :
    (fuel n : ℕ) (bts : List ℕ) → 0 < n → length bts < fuel → concat (chunks fuel n bts) ≡ bts
unfolding chunks
chunks-concat zero n bts p h = elim h [ ]
chunks-concat (suc fuel) n bts p h = ground (
  arith,
  chunks-concat fuel n (drop n bts) p,
  length-drop n bts,
  take-append-drop n bts,
  append-nil bts,
  length-eq_zero bts,
)

chunks-IsChunk : (fuel n : ℕ) (bts : List ℕ) → 0 < n → All (IsChunk n) (chunks fuel n bts)
unfolding chunks
chunks-IsChunk zero n bts p = tt
chunks-IsChunk (suc fuel) n bts p =
    ground (arith, chunks-IsChunk fuel n (drop n bts) p, length-take n bts)

-- With room for four bytes of noise, a chunk and a noise that was drawn for it make a frame.
pub mk_frame_total :
    (c : FlowObf) (noise bts : List ℕ)
    → 4 ≤ c.noise_max_len
    → (0 < length bts) × (length bts ≤ c.data_len)
    → length noise < noise_bound c (length bts)
    → (b : List ℕ) × (mk_frame c noise bts ≡ some b)
unfolding mk_frame
mk_frame_total c noise bts h (lo, hi) d =
    (put_uint16 (length noise) ++ (put_uint16 (length bts) ++ (noise ++ bts)), ground arith)

-- The frames of a list of chunks: what is written, the count, and how it is read.
pub record Sent (c : FlowObf) (noises bs : List (List ℕ)) : Type 0 where
  pub bytes : List ℕ
  pub frames : List (List ℕ × ℕ)
  pub made : mk_frames c noises bs ≡ some frames
  pub written : (n : ℕ) → write_frames frames (all_ok bs) n ≡ (bytes, n + length (concat bs), false)
  pub decodes : Decodes c bytes (concat bs)

noise_room :
    (c : FlowObf) (n b : List ℕ)
    → 4 ≤ c.noise_max_len
    → IsChunk c.data_len b
    → length n < noise_bound c (length b)
    → buffer_size c < 65536
    → 4 + length n + length b < 65536
noise_room c n b h i d k = ground arith

mk_frames-Sent :
    (c : FlowObf) (noises bs : List (List ℕ))
    → 4 ≤ c.noise_max_len
    → buffer_size c < 65536
    → All (IsChunk c.data_len) bs
    → Drawn c noises bs
    → Sent c noises bs
unfolding mk_frames write_frames
mk_frames-Sent c noises [] h k i d = record {
  bytes = [];
  frames = [];
  made = refl;
  written = λ n. ground arith;
  decodes = at_end;
}
mk_frames-Sent c [] (b ∷ bs) h k i d = absurd d
mk_frames-Sent c (n ∷ ns) (b ∷ bs) h k (i, is) (d, ds) =
    let (f, e) = mk_frame_total c n b h i d in
    let more : Sent c ns bs = mk_frames-Sent c ns bs h k is ds in
    record {
      bytes = f ++ more.bytes;
      frames = (f, length b) ∷ more.frames;
      made = ground (arith, e, more.made);
      written = λ m. ground (arith, more.written (m + length b), length-append b (concat bs));
      decodes =
          at_frame b more.bytes (concat bs)
            (read_frame-mk_frame c n b f more.bytes (noise_room c n b h i d k) e) more.decodes refl;
    }

-- A Write whose noise was drawn within its bounds, with room for four bytes of noise and buffers of
-- fewer than 65536 bytes, over a connection that fails no write: it succeeds, counts every byte of the
-- caller, and puts whole frames on the connection whose data together is the caller's buffer.
pub write_transfers :
    (c : FlowObf) (noises : List (List ℕ)) (bts : List ℕ)
    → 4 ≤ c.noise_max_len
    → 0 < c.data_len
    → buffer_size c < 65536
    → Drawn c noises (chunks (suc (length bts)) c.data_len bts)
    → (sent : List ℕ) × (write c noises (all_ok (chunks (suc (length bts)) c.data_len bts)) bts
        ≡ some (sent, length bts, false))
      × Decodes c sent bts
unfolding write split
write_transfers c noises bts h p k d = (
  sent.bytes,
  ground (arith, sent.made, sent.written 0, ap length whole),
  subst (Decodes c sent.bytes) whole sent.decodes,
)
  where
    bs : List (List ℕ)
    bs = chunks (suc (length bts)) c.data_len bts

    whole : concat bs ≡ bts
    whole = chunks-concat (suc (length bts)) c.data_len bts p (omega arith)

    sent : Sent c noises bs
    sent = mk_frames-Sent c noises bs h k (chunks-IsChunk (suc (length bts)) c.data_len bts p) d
