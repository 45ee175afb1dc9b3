-- ===== src/Smux/Stream/Split.antt =====
-- split cuts a buffer into frames that carry all of it, in order, none empty and none too long.
use revese_server.Base.{
  ℕ, zero, suc, ◌≤◌, ◌<◌, ◌≡◌, List, [], ◌∷◌, ◌++◌, arith, All, append-nil, length, drop,
  take-append-drop, length-take, length-drop, length-eq_zero, All-take, IsByte, All-drop,
}
use revese_server.Smux.Frame.{Frame, new_frame, version}
use revese_server.Smux.Stream.{Stream, split_loop, split}

-- The data of a list of frames, in order.
abbrev pub payloads : List Frame → List ℕ
payloads [] = []
payloads (f ∷ fs) = f.payload ++ payloads fs

-- What every frame of a split is like.
pub record IsPiece (frame_size c i : ℕ) (f : Frame) : Type 0 where
  pub ver : f.ver ≡ version
  pub cmd : f.cmd ≡ c
  pub sid : f.sid ≡ i
  pub low : 0 < length f.payload
  pub high : length f.payload ≤ frame_size
  pub bytes : All IsByte f.payload

pub split_loop-payloads :
    (fuel frame_size cmd sid : ℕ) (bts : List ℕ)
    → 0 < frame_size
    → length bts < fuel
    → payloads (split_loop fuel frame_size cmd sid bts) ≡ bts
unfolding split_loop
split_loop-payloads zero frame_size cmd sid bts p h = elim h [ ]
split_loop-payloads (suc fuel) frame_size cmd sid bts p h = ground (
  arith,
  split_loop-payloads fuel frame_size cmd sid (drop frame_size bts) p,
  length-drop frame_size bts,
  take-append-drop frame_size bts,
  append-nil bts,
  length-eq_zero bts,
)

split_loop-IsPiece :
    (fuel frame_size cmd sid : ℕ) (bts : List ℕ)
    → 0 < frame_size
    → All IsByte bts
    → All (IsPiece frame_size cmd sid) (split_loop fuel frame_size cmd sid bts)
unfolding split_loop new_frame
split_loop-IsPiece zero frame_size cmd sid bts p h = tt
split_loop-IsPiece (suc fuel) frame_size cmd sid bts p h = ground (
  arith,
  split_loop-IsPiece fuel frame_size cmd sid (drop frame_size bts) p,
  length-take frame_size bts,
  All-take IsByte frame_size bts h,
  All-drop IsByte frame_size bts h,
)

-- With a positive frame size, split ends with frames whose data is the whole buffer in order; each
-- is a frame of this protocol version with the command and the stream id that were asked for, and
-- with one byte at least and frameSize bytes at most.
pub split_lem :
    (st : Stream) (bts : List ℕ) (cmd sid : ℕ)
    → 0 < st.frame_size
    → All IsByte bts
    → (payloads (split st bts cmd sid) ≡ bts)
      × All (IsPiece st.frame_size cmd sid) (split st bts cmd sid)
unfolding split
split_lem st bts cmd sid p h = (
  split_loop-payloads (suc (length bts)) st.frame_size cmd sid bts p (omega arith),
  split_loop-IsPiece (suc (length bts)) st.frame_size cmd sid bts p h,
)
