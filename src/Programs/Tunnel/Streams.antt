-- ===== src/Programs/Tunnel/Streams.antt =====
-- All streams of a session at once: the send loop of lib/smux/session.go the encryption of
-- lib/streamcoder, the decryption, and the receive loop of the other end's session.
use revese_server.Base.{
  ap, sym, append-nil, append_assoc, length-append, arith, length, concat, All, List, ℕ, ◌∙◌, ◌++◌,
  ◌≡◌, ◌<◌, ◌≤◌, Option, some, true, false, [], ◌∷◌, refl, Bool,
}
use revese_server.Base.Int.{pos_part}
use revese_server.Programs.Tunnel.{wire-IsByte}
use revese_server.Smux.Frame.{Frame, IsFrame, Sendable, frame_bytes, header_bytes, wire_bytes}
use revese_server.Smux.Session.{Session, Env, new_session}
use revese_server.Smux.Config.{Config}
use revese_server.Smux.Session.Machine.{Reach}
use revese_server.Smux.Session.Sends.Run.{AllSound, sent-Sendable}
use revese_server.Smux.Sender.{queue_of}
use revese_server.Smux.Session.Recv.{next, handled, recv_rounds}
use revese_server.Smux.Session.Refine.{view, Named}
use revese_server.Smux.Session.Delivery.Wire.{wire_bytes-cons}
use revese_server.Smux.Session.Delivery.Demux.{Room, data_size, feed_frame, feed, recv_rounds-demux}
use revese_server.Smux.Sender.Order.{select, fin_last}
use revese_server.Smux.Sender.Collector.{FinsLast}
use revese_server.Smux.Sender.Kinds.{out-All}
use revese_server.Smux.Sender.Loops.{Loops, Interleaved}
use revese_server.Smux.Sender.Loops.Hand.{virtual}
use revese_server.Smux.Sender.Loops.Order.{Interleaved-Handed, kept_in_order, gone_at_rest}
use revese_server.Streamcoder.Coder.{Cipher, Coder, writes, reads}
use revese_server.Streamcoder.Coder.Transfer.{same_stream_delivers}

-- Sendable frames are made of bytes.
Sendable-IsFrame : (fs : List Frame) → All Sendable fs → All IsFrame fs
Sendable-IsFrame [] g = tt
Sendable-IsFrame (f ∷ fs) (g, gs) = (g.words, Sendable-IsFrame fs gs)

header_size : (f : Frame) (b : List ℕ) → frame_bytes f ≡ some b → length f.payload ≤ length b
unfolding frame_bytes
header_size f b e = ground (arith, e, length-append (header_bytes f) f.payload)

data_size-wire : (fs : List Frame) (w : List ℕ) → wire_bytes fs ≡ some w → data_size fs ≤ length w
unfolding data_size
data_size-wire [] w e = omega arith
data_size-wire (f ∷ fs) w e =
    let (b, bs, eb, ebs, ew) = wire_bytes-cons f fs w e in
    omega (
      arith,
      header_size f b eb,
      data_size-wire fs bs ebs,
      ap (λ l. length l) ew,
      length-append b bs,
    )

All-front : (fs gs : List Frame) → All Sendable (fs ++ gs) → All Sendable fs
All-front [] gs a = tt
All-front (f ∷ fs) gs (h, a) = (h, All-front fs gs a)

-- What has left the loop of a session can be read.
sent_out :
    (c : Config) (client : Bool) (now : ℕ) (u : Session) (r : Reach (new_session c client now) u)
    (size : ℕ) (w : Loops)
    → 0 < pos_part c.max_frame_size
    → pos_part c.max_frame_size < 65528
    → AllSound r
    → 0 < size
    → FinsLast u.sent
    → Interleaved size u.sent w
    → All Sendable w.sender.out
sent_out c client now u r size w low high o p fins h = All-front w.sender.out w.hand (
    out-All Sendable size u.sent (virtual w) p (Interleaved-Handed size p u.sent w fins h).0
      (sent-Sendable c client now u r low high o))

feed-append : (q : Option (List ℕ)) (fs gs : List Frame) → feed q (fs ++ gs) ≡ feed (feed q fs) gs
unfolding feed
feed-append q [] gs = refl
feed-append q (f ∷ fs) gs = feed-append (feed_frame q f) fs gs

module _ (cipher : Cipher) where
  -- What has left the send loop of a session, over the connection to another session.
  frames_arrive :
      (a b : Coder cipher) (fs : List Frame) (s : Session) (envs : ℕ → Env) (ws rs : List (List ℕ))
      → a.enc ≡ b.dec
      → All Sendable fs
      → wire_bytes fs ≡ some (concat ws)
      → concat rs ≡ (writes cipher a ws).1
      → Named s
      → Room s (length fs) (length (concat ws))
      → (t : Session) × (recv_rounds (length fs) envs s (reads cipher b rs).1 ≡ handled (next t) [])
        × ((sid : ℕ) → view t sid ≡ feed (view s sid) (select sid fs))
  frames_arrive a b fs s envs ws rs dual g hw hr n room =
      let fits : Room s (length fs) (data_size fs) =
        ground
          (arith, room.live, room.places, room.low, room.high, data_size-wire fs (concat ws) hw) in
      let read : (reads cipher b rs).1 ≡ concat ws ++ [] =
        same_stream_delivers cipher a b ws rs dual
          (wire-IsByte fs (concat ws) (Sendable-IsFrame fs g) hw) hr
        ∙ sym (append-nil (concat ws)) in
      let (t, q, _, views) = recv_rounds-demux envs s fs (concat ws) [] n g fits hw in
      (t, ground (arith, read, q), views)

  -- Any number of streams share one connection. A session runs through any history, in which it is given ids
  -- of four bytes, data of bytes and custom commands of the protocol, with MaxFrameSize from 1 to 65527, and
  -- no stream hands anything over after its FIN. The goroutines of its send loop run in any order, and no request
  -- finds its queue full. At any moment, what has left the loop is written through one end's coder, whose secret
  -- is the other end's, and arrives in pieces of any sizes. The other end's session is open and has
  -- room for as many streams as frames and tokens for all bytes of the wire. Then its receive loop reads
  -- every frame and leaves no byte; and for each stream what the frames that it handed over make of what its id
  -- led to before is what the frames of it that the collecting goroutine holds and that wait in its queue make of
  -- what the id leads to now.
  pub streams_in_order :
      (c : Config) (client : Bool) (now : ℕ) (u : Session) (r : Reach (new_session c client now) u)
      (a b : Coder cipher) (size : ℕ) (w : Loops) (s : Session) (envs : ℕ → Env)
      (ws rs : List (List ℕ))
      → 0 < pos_part c.max_frame_size
      → pos_part c.max_frame_size < 65528
      → AllSound r
      → a.enc ≡ b.dec
      → 0 < size
      → ((sid : ℕ) → fin_last (select sid u.sent) ≡ true)
      → Interleaved size u.sent w
      → wire_bytes w.sender.out ≡ some (concat ws)
      → concat rs ≡ (writes cipher a ws).1
      → Named s
      → Room s (length w.sender.out) (length (concat ws))
      → (t : Session) × (recv_rounds (length w.sender.out) envs s (reads cipher b rs).1
          ≡ handled (next t) [])
        × ((sid : ℕ)
            → feed (view s sid) (select sid u.sent)
              ≡ feed (view t sid) (select sid w.hand ++ queue_of w.sender sid))
  streams_in_order c client now u r a b size w s envs ws rs low high o dual p fins h hw hr n room =
      let gone = sent_out c client now u r size w low high o p fins h in
      let (t, q, views) = frames_arrive a b w.sender.out s envs ws rs dual gone hw hr n room in
      (
        t,
        q,
        λ sid.
            let out = select sid w.sender.out in
            let behind = select sid w.hand ++ queue_of w.sender sid in
            ap (feed (view s sid)) (
              kept_in_order size p u.sent w sid fins h
              ∙ append_assoc out (select sid w.hand) (queue_of w.sender sid))
            ∙ (feed-append (view s sid) out behind ∙ ap (λ v. feed v behind) (sym (views sid))),
      )

  -- Any number of streams share one connection. A session runs through any history, in which it is given ids
  -- of four bytes, data of bytes and custom commands of the protocol, with MaxFrameSize from 1 to 65527, and
  -- no stream hands anything over after its FIN. The goroutines of its send loop run in any order, no request
  -- finds its queue full, and the loop comes to rest: its token is sent and taken,
  -- and the collecting goroutine has nothing to do. What has left it is written through one end's coder, whose
  -- secret is the other end's, and arrives in pieces of any sizes. The other end's session is open and has
  -- room for as many streams as frames and tokens for all bytes of the wire. Then its receive loop reads
  -- every frame and leaves no byte, and what each stream id leads to there is what the frames that the
  -- session handed over for it, in that order, make of what it led to before. A SYN opens an empty buffer,
  -- and a PSH appends its data.
  pub streams_delivered :
      (c : Config) (client : Bool) (now : ℕ) (u : Session) (r : Reach (new_session c client now) u)
      (a b : Coder cipher) (size : ℕ) (w : Loops) (s : Session) (envs : ℕ → Env)
      (ws rs : List (List ℕ))
      → 0 < pos_part c.max_frame_size
      → pos_part c.max_frame_size < 65528
      → AllSound r
      → a.enc ≡ b.dec
      → 0 < size
      → ((sid : ℕ) → fin_last (select sid u.sent) ≡ true)
      → Interleaved size u.sent w
      → w.owes ≡ false
      → w.token ≡ false
      → w.busy ≡ false
      → wire_bytes w.sender.out ≡ some (concat ws)
      → concat rs ≡ (writes cipher a ws).1
      → Named s
      → Room s (length u.sent) (length (concat ws))
      → (t : Session) × (recv_rounds (length u.sent) envs s (reads cipher b rs).1
          ≡ handled (next t) [])
        × ((sid : ℕ) → view t sid ≡ feed (view s sid) (select sid u.sent))
  streams_delivered c client now u r a b size w s envs ws rs low high o dual p fins h owes token
        busy hw hr n room =
      let gone = sent_out c client now u r size w low high o p fins h in
      let (empty, len, same) = gone_at_rest size p u.sent w fins h owes token busy in
      let (t, q, views) =
        frames_arrive a b w.sender.out s envs ws rs dual gone hw hr n (rw len room) in
      (t, rw⁻¹ len q, λ sid. views sid ∙ ap (feed (view s sid)) (same sid))
