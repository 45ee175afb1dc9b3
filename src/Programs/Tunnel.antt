-- ===== src/Programs/Tunnel.antt =====
-- The way of a client's bytes from hub.go to client.go: OpenStream and Write on the hub's session, the
-- encryption, the connection, the decryption, and the receive loop of the client's session.
pub mod Sent
pub mod Ends
pub mod Streams
use revese_server.Base.{
  All-append, ap, suc, concat, length, sym, subst, append_assoc, ◌∙◌, ◌+◌, [], append-nil, ◌∷◌,
  ◌++◌, arith, IsByte, ◌<◌, All, ◌≡◌, ℕ, List, none, some, true, false, inl, inr,
}
use revese_server.Smux.Frame.{
  Frame, IsFrame, new_frame, cmd_syn, cmd_psh, frame_bytes, header_bytes, wire_bytes,
}
use revese_server.Smux.Frame.RoundTrip.{frame_bytes-eq}
use revese_server.Smux.Config.{Config}
use revese_server.Smux.Stream.{Stream, new_stream, split}
use revese_server.Smux.Stream.Split.{IsPiece, split_lem}
use revese_server.Smux.Session.{Session, Env, new_session, alloc_stream, write_frame}
use revese_server.Smux.Session.Open.{Error, open_stream, register, opened}
use revese_server.Smux.Session.Conn.{
  WaitChoice, FrameReply, answered, lost, not_taken, send_frames, write,
}
use revese_server.Smux.Session.Recv.{next, handled, recv_rounds}
use revese_server.Smux.Session.Delivery.Wire.{piece-IsFrame, wire_bytes-cons}
use revese_server.Smux.Session.Delivery.Opening.{syn-IsFrame, opened_delivers}
use revese_server.Streamcoder.Coder.{Cipher, Coder, writes, reads}
use revese_server.Streamcoder.Coder.Transfer.{same_stream_delivers}
use revese_server.Base.Int.{pos_part}
use revese_server.Base.Maps.{lookup}

header-IsByte : (f : Frame) → IsFrame f → All IsByte (header_bytes f)
header-IsByte f i = (
  i.ver_byte,
  (
    i.cmd_byte,
    (omega arith, (omega arith, (omega arith, (omega arith, (omega arith, (omega arith, tt)))))),
  ),
)

bytes-IsByte : (f : Frame) (b : List ℕ) → IsFrame f → frame_bytes f ≡ some b → All IsByte b
unfolding frame_bytes
bytes-IsByte f b i e =
    let whole : header_bytes f ++ f.payload ≡ b = ground (arith, e) in
    subst (λ x. All IsByte x) whole
      (All-append IsByte (header_bytes f) f.payload (header-IsByte f i) i.data_bytes)

pub wire-IsByte :
    (fs : List Frame) (w : List ℕ) → All IsFrame fs → wire_bytes fs ≡ some w → All IsByte w
unfolding wire_bytes
wire-IsByte [] w i e = subst (λ x. All IsByte x) {x = []} (ground (arith, e)) tt
wire-IsByte (f ∷ fs) w (i, is) e =
    let (b, bs, eb, ebs, ew) = wire_bytes-cons f fs w e in
    subst (λ x. All IsByte x) (sym ew)
      (All-append IsByte b bs (bytes-IsByte f b i eb) (wire-IsByte fs bs is ebs))

-- A Write that returns no error has handed every frame over.
send_frames-all :
    (s t : Session) (fs : List Frame) (rs : List FrameReply) (n m : ℕ)
    → send_frames s fs rs n ≡ some (t, m, none)
    → t.sent ≡ s.sent ++ fs
unfolding send_frames
send_frames-all s t [] rs n m q = ground (arith, append-nil s.sent)
send_frames-all s t (f ∷ fs) [] n m q = absurd (ground arith)
send_frames-all s t (f ∷ fs) (answered k true ∷ rs) n m q =
    let rest = send_frames-all (record s { sent = s.sent ++ (f ∷ []) }) t fs rs (n + k) m q in
    rest ∙ append_assoc s.sent (f ∷ []) fs
send_frames-all s t (f ∷ fs) (answered k false ∷ rs) n m q = absurd (ground arith)
send_frames-all s t (f ∷ fs) (lost e ∷ rs) n m q = absurd (ground arith)
send_frames-all s t (f ∷ fs) (not_taken e ∷ rs) n m q = absurd (ground arith)

-- The first stream that a new session opens.
pub record FirstStream (c : Config) (t : Session) (p : ℕ) : Type 0 where
  pub id : (t.objects p).id < 4294967296
  pub size : (t.objects p).frame_size ≡ pos_part c.max_frame_size
  pub live : (t.objects p).die ≡ false
  pub free : (t.objects p).fulflag ≡ false
  pub sent : t.sent ≡ new_frame cmd_syn (t.objects p).id ∷ []

pub open-FirstStream :
    (c : Config) (now : ℕ) (env : Env) (t : Session) (p : ℕ)
    → open_stream env (new_session c true now) ≡ (t, opened p)
    → FirstStream c t p
unfolding open_stream register new_session alloc_stream write_frame new_stream new_frame
open-FirstStream c now env t p q = record {
  id = ground arith;
  size = ground arith;
  live = ground arith;
  free = ground arith;
  sent = ground arith;
}

-- What the hub's session has handed to the send loop after a Write on its first stream.
pub first_write-sent :
    (c : Config) (t u : Session) (p n : ℕ) (bts : List ℕ) (w : WaitChoice) (rs : List FrameReply)
    → FirstStream c t p
    → write t p bts w rs ≡ some (u, n, none)
    → u.sent ≡ new_frame cmd_syn (t.objects p).id ∷ split (t.objects p) bts cmd_psh (t.objects p).id
unfolding write
first_write-sent c t u p n bts w rs f q = ground (
  arith,
  f.live,
  f.free,
  f.sent,
  send_frames-all t u (split (t.objects p) bts cmd_psh (t.objects p).id) rs 0 n,
)

pieces-IsFrame :
    (n sid : ℕ) (fs : List Frame)
    → sid < 4294967296
    → All (IsPiece n cmd_psh sid) fs
    → All IsFrame fs
pieces-IsFrame n sid [] h i = tt
pieces-IsFrame n sid (f ∷ fs) h (i, is) = (piece-IsFrame n sid f h i, pieces-IsFrame n sid fs h is)

-- The frames of the first stream are bytes.
first-IsByte :
    (st : Stream) (bts w : List ℕ)
    → 0 < st.frame_size
    → st.id < 4294967296
    → All IsByte bts
    → wire_bytes (new_frame cmd_syn st.id ∷ split st bts cmd_psh st.id) ≡ some w
    → All IsByte w
first-IsByte st bts w h hs hb e =
    wire-IsByte (new_frame cmd_syn st.id ∷ split st bts cmd_psh st.id) w
      (
        syn-IsFrame st.id hs,
        pieces-IsFrame st.frame_size st.id (split st bts cmd_psh st.id) hs
            (split_lem st bts cmd_psh st.id h hb).1,
      )
      e

module _ (cipher : Cipher) where
  -- What arrives at a new session of the other end.
  pub first_arrives :
      (a b : Coder cipher) (st : Stream) (s : Session) (envs : ℕ → Env) (bts : List ℕ)
      (ws rs : List (List ℕ))
      → a.enc ≡ b.dec
      → 0 < st.frame_size
      → st.frame_size < 65528
      → st.id < 4294967296
      → All IsByte bts
      → lookup st.id s.streams ≡ none
      → s.die ≡ false
      → length s.ch_accepts < 1024
      → length bts < s.bucket
      → s.bucket < 2147483648
      → wire_bytes (new_frame cmd_syn st.id ∷ split st bts cmd_psh st.id) ≡ some (concat ws)
      → concat rs ≡ (writes cipher a ws).1
      → (t : Session) × (recv_rounds
            (suc (length (split st bts cmd_psh st.id)))
            envs
            s
            (reads cipher b rs).1
          ≡ handled (next t) [])
        × (lookup st.id t.streams ≡ some s.next_ptr)
        × ((t.objects s.next_ptr).buffer ≡ bts)
  first_arrives a b st s envs bts ws rs dual h0 h1 hs hb l d room lo hi hw hr =
      let (w, t, e, r, there, got) = opened_delivers envs st s bts [] h0 h1 hb hs l d room lo hi in
      let same : concat ws ≡ w = ground (arith, e, hw) in
      let read : (reads cipher b rs).1 ≡ w ++ [] =
        same_stream_delivers cipher a b ws rs dual (first-IsByte st bts (concat ws) h0 hs hb hw) hr
        ∙ (same ∙ sym (append-nil w)) in
      (
        t,
        ap (λ i. recv_rounds (suc (length (split st bts cmd_psh st.id))) envs s i) read ∙ r,
        there,
        got,
      )
