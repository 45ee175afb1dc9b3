-- ===== src/Smux/Session/Delivery/Wire.antt =====
-- From a Write on one side, over the bytes of its frames, to the buffer of the stream on the other.
use revese_server.Base.{
  ◌⊎◌, refl, inr, inl, append-nil, subst, append_assoc, ◌+◌, length-append, IsByte, Option-cases,
  length, [], ◌++◌, ◌∷◌, some, ◌≡◌, arith, All, List, ◌<◌, ℕ,
}
use revese_server.Smux.Session.{ℕ, Session, Env}
use revese_server.Smux.Frame.{
  Frame, cmd_psh, frame_bytes, header_bytes, wire_bytes, read_frame, frame, IsFrame,
}
use revese_server.Smux.Frame.RoundTrip.{read_frame-frame_bytes, frame_bytes-eq}
use revese_server.Smux.Stream.{Stream, split}
use revese_server.Smux.Stream.Split.{payloads, IsPiece, split_lem}
use revese_server.Smux.Session.Recv.{next, recv_round, recv_rounds, handled}
use revese_server.Smux.Session.Delivery.Receive.{Pushed, handle_frame-Pushed}
use revese_server.Base.Maps.{lookup}

-- A positive int32.
abbrev HasTokens : Session → ℕ → Type 0
HasTokens s n = (n < s.bucket) × (s.bucket < 2147483648)

pub piece-IsFrame : (n sid : ℕ) (f : Frame) → sid < 4294967296 → IsPiece n cmd_psh sid f → IsFrame f
piece-IsFrame n sid f h i = record {
  ver_byte = omega (arith, i.ver);
  cmd_byte = omega (arith, i.cmd);
  sid_word = omega (arith, i.sid);
  data_bytes = i.bytes;
}

-- One round of the receive loop on the bytes of a piece.
recv_round-piece :
    (env : Env) (s : Session) (n sid p : ℕ) (f : Frame) (b rest : List ℕ)
    → sid < 4294967296
    → n < 65528
    → IsPiece n cmd_psh sid f
    → lookup sid s.streams ≡ some p
    → HasTokens s 0
    → frame_bytes f ≡ some b
    → (t : Session) × (recv_round env s (b ++ rest) ≡ handled (next t) rest)
      × Pushed s p f.payload t
unfolding recv_round
recv_round-piece env s n sid p f b rest hs hn i l (lo, hi) e =
    let (t, r, q) = handle_frame-Pushed env s f p i.cmd (rw i.sid l) in
    let read : read_frame (b ++ rest) ≡ frame f rest =
      read_frame-frame_bytes f b rest i.ver (piece-IsFrame n sid f hs i) (omega (arith, i.high))
        e in
    (t, ground (arith, read, r), q)

-- The frames of the pieces can be written.
wire_bytes-pieces :
    (n sid : ℕ) (fs : List Frame)
    → n < 65528
    → All (IsPiece n cmd_psh sid) fs
    → (w : List ℕ) × (wire_bytes fs ≡ some w)
unfolding wire_bytes
wire_bytes-pieces n sid [] h i = ([], refl)
wire_bytes-pieces n sid (f ∷ fs) h (i, is) =
    let (w, e) = wire_bytes-pieces n sid fs h is in
    (
      (header_bytes f ++ f.payload) ++ w,
      ground (arith, e, frame_bytes-eq f (omega (arith, i.high))),
    )

-- What the data of a Write does to the receiver: the stream's buffer gets it, in order, the bucket
-- pays for it, and nothing else that the delivery depends on changes.
pub record Delivered (s : Session) (p : ℕ) (bytes : List ℕ) (t : Session) : Type 0 where
  pub buffer : (t.objects p).buffer ≡ (s.objects p).buffer ++ bytes
  pub others : (q : ℕ) → (q ≡ p) ⊎ ((t.objects q).buffer ≡ (s.objects q).buffer)
  pub streams : t.streams ≡ s.streams
  pub bucket : t.bucket + length bytes ≡ s.bucket

Delivered-step :
    (s u t : Session) (p : ℕ) (xs ys : List ℕ)
    → HasTokens s (length xs)
    → Pushed s p xs u
    → Delivered u p ys t
    → Delivered s p (xs ++ ys) t
Delivered-step s u t p xs ys (lo, hi) a b = record {
  buffer = ground (arith, a.buffer, b.buffer, append_assoc (s.objects p).buffer xs ys);
  others = λ q. ground (arith, a.others q, b.others q);
  streams = ground (arith, a.streams, b.streams);
  bucket = omega (arith, a.bucket, b.bucket, length-append xs ys);
}

Pushed-tokens :
    (s u : Session) (p : ℕ) (xs ys : List ℕ)
    → HasTokens s (length (xs ++ ys))
    → Pushed s p xs u
    → HasTokens u (length ys)
Pushed-tokens s u p xs ys (lo, hi) a =
    (omega (arith, a.bucket, length-append xs ys), omega (arith, a.bucket, length-append xs ys))

pub wire_bytes-cons :
    (f : Frame) (fs : List Frame) (w : List ℕ)
    → wire_bytes (f ∷ fs) ≡ some w
    → (b : List ℕ) × (bs : List ℕ) × (frame_bytes f ≡ some b)
      × (wire_bytes fs ≡ some bs)
      × (w ≡ b ++ bs)
unfolding wire_bytes
wire_bytes-cons f fs w e = elim (Option-cases (frame_bytes f)) [
  | inl n ↦ absurd (ground arith)
  | inr (b, eb) ↦ elim (Option-cases (wire_bytes fs)) [
    | inl n ↦ absurd (ground arith)
    | inr (bs, ebs) ↦ (b, bs, eb, ebs, ground arith)
  ]
]

recv_rounds-pieces :
    (envs : ℕ → Env) (s : Session) (n sid p : ℕ) (fs : List Frame) (w rest : List ℕ)
    → sid < 4294967296
    → n < 65528
    → All (IsPiece n cmd_psh sid) fs
    → lookup sid s.streams ≡ some p
    → HasTokens s (length (payloads fs))
    → wire_bytes fs ≡ some w
    → (t : Session) × (recv_rounds (length fs) envs s (w ++ rest) ≡ handled (next t) rest)
      × Delivered s p (payloads fs) t
unfolding recv_rounds
recv_rounds-pieces envs s n sid p [] w rest hs hn i l k e = (
  s,
  unfold wire_bytes in ground arith,
  record {
    buffer = ground (arith, append-nil (s.objects p).buffer);
    others = λ q. inr refl;
    streams = refl;
    bucket = omega arith;
  },
)
recv_rounds-pieces envs s n sid p (f ∷ fs) w rest hs hn (i, is) l k e =
    let (b, bs, eb, ebs, ew) = wire_bytes-cons f fs w e in
    let (u, r, a) =
      recv_round-piece (envs (length fs)) s n sid p f b (bs ++ rest) hs hn i l (omega arith) eb in
    let (t, r', d) =
      recv_rounds-pieces envs u n sid p fs bs rest hs hn is (ground (arith, a.streams))
        (Pushed-tokens s u p f.payload (payloads fs) k a) ebs in
    (
      t,
      ground (arith, r, r', append_assoc b bs rest),
      Delivered-step s u t p f.payload (payloads fs)
          (omega (arith, k, length-append f.payload (payloads fs))) a d,
    )

-- The frames into which Write splits a buffer, written by the send loop one after the other and read
-- by the receive loop of a session that has the stream open and tokens enough for the buffer: after
-- as many rounds as there are frames the loop goes on with the bytes that follow, and the whole
-- buffer, in order, is at the end of the stream's buffer and in no other. The frame size is at most
-- 65527.
pub write_delivers :
    (envs : ℕ → Env) (st : Stream) (s : Session) (sid p : ℕ) (bts rest : List ℕ)
    → 0 < st.frame_size
    → st.frame_size < 65528
    → All IsByte bts
    → sid < 4294967296
    → lookup sid s.streams ≡ some p
    → length bts < s.bucket
    → s.bucket < 2147483648
    → (w : List ℕ) × (t : Session) × (wire_bytes (split st bts cmd_psh sid) ≡ some w)
      × (recv_rounds (length (split st bts cmd_psh sid)) envs s (w ++ rest) ≡ handled (next t) rest)
      × Delivered s p bts t
write_delivers envs st s sid p bts rest h0 h1 hb hs l lo hi =
    let (whole, pieces) = split_lem st bts cmd_psh sid h0 hb in
    let (w, e) = wire_bytes-pieces st.frame_size sid _ h1 pieces in
    let (t, r, d) =
      recv_rounds-pieces envs s st.frame_size sid p _ w rest hs h1 pieces l (rw whole (lo, hi)) e in
    (w, t, e, r, subst (λ b. Delivered s p b t) whole d)
