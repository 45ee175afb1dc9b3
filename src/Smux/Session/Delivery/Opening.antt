-- ===== src/Smux/Session/Delivery/Opening.antt =====
-- A stream that the other side opens, and the bytes of its first Write.
use revese_server.Base.{
  refl, length, List, ℕ, ◌<◌, ◌++◌, ◌≡◌, [], ◌∷◌, some, none, false, true, suc, arith, All, IsByte,
  append_assoc,
}
use revese_server.Base.Maps.{lookup, insert, lookup-insert}
use revese_server.Smux.Frame.{
  Frame, IsFrame, new_frame, cmd_syn, cmd_psh, header_bytes, wire_bytes, read_frame, frame,
}
use revese_server.Smux.Frame.RoundTrip.{read_frame-frame_bytes, frame_bytes-eq}
use revese_server.Smux.Stream.{Stream, new_stream, split}
use revese_server.Smux.Session.{Session, Env, alloc_stream}
use revese_server.Smux.Session.Recv.{
  next, handled, handle_frame, handle_syn, offer_accept, recv_round, recv_rounds,
}
use revese_server.Smux.Session.Delivery.Wire.{write_delivers}

-- The session has made a stream under the id, which waits for AcceptStream.
record Offered (s : Session) (sid : ℕ) (t : Session) : Type 0 where
  there : lookup sid t.streams ≡ some s.next_ptr
  empty : (t.objects s.next_ptr).buffer ≡ []
  waits : t.ch_accepts ≡ s.ch_accepts ++ (s.next_ptr ∷ [])
  bucket : t.bucket ≡ s.bucket

abbrev with_offer : Env → Session → ℕ → Session
with_offer env s sid = record (alloc_stream env (record s { data_ready = true }) sid) {
  streams = insert sid s.next_ptr s.streams;
  ch_accepts = s.ch_accepts ++ (s.next_ptr ∷ []);
}

with-Offered : (env : Env) (s : Session) (sid : ℕ) → Offered s sid (with_offer env s sid)
unfolding alloc_stream new_stream
with-Offered env s sid = record {
  there = ground (arith, lookup-insert s.streams sid sid s.next_ptr);
  empty = ground arith;
  waits = refl;
  bucket = refl;
}

syn-handled :
    (env : Env) (s : Session) (sid : ℕ)
    → lookup sid s.streams ≡ none
    → s.die ≡ false
    → length s.ch_accepts < 1024
    → handle_frame env s (new_frame cmd_syn sid) ≡ next (with_offer env s sid)
unfolding handle_frame handle_syn offer_accept alloc_stream new_frame
syn-handled env s sid l d h = ground (arith, l, d, h)

pub syn-IsFrame : (sid : ℕ) → sid < 4294967296 → IsFrame (new_frame cmd_syn sid)
unfolding new_frame
syn-IsFrame sid h = record {
  ver_byte = omega arith;
  cmd_byte = omega arith;
  sid_word = omega (arith, h);
  data_bytes = tt;
}

syn-read :
    (sid : ℕ) (rest : List ℕ)
    → sid < 4294967296
    → read_frame ((header_bytes (new_frame cmd_syn sid) ++ []) ++ rest)
      ≡ frame (new_frame cmd_syn sid) rest
unfolding new_frame
syn-read sid rest h =
    read_frame-frame_bytes (new_frame cmd_syn sid) (header_bytes (new_frame cmd_syn sid) ++ []) rest
      refl (syn-IsFrame sid h) (omega arith) (frame_bytes-eq (new_frame cmd_syn sid) (omega arith))

syn-round :
    (env : Env) (s : Session) (sid : ℕ) (rest : List ℕ)
    → sid < 4294967296
    → lookup sid s.streams ≡ none
    → s.die ≡ false
    → length s.ch_accepts < 1024
    → 0 < s.bucket
    → s.bucket < 2147483648
    → recv_round env s ((header_bytes (new_frame cmd_syn sid) ++ []) ++ rest)
      ≡ handled (next (with_offer env s sid)) rest
unfolding recv_round
syn-round env s sid rest h l d room lo hi =
    ground (arith, syn-read sid rest h, syn-handled env s sid l d room)

syn-wire :
    (sid : ℕ) (fs : List Frame) (w : List ℕ)
    → wire_bytes fs ≡ some w
    → wire_bytes (new_frame cmd_syn sid ∷ fs)
      ≡ some ((header_bytes (new_frame cmd_syn sid) ++ []) ++ w)
unfolding wire_bytes new_frame
syn-wire sid fs w e = ground (arith, e, frame_bytes-eq (new_frame cmd_syn sid) (omega arith))

-- The SYN of OpenStream and the frames of a Write, read by the receive loop of a session that has no
-- such stream, room for it and tokens enough: the loop goes on with the bytes that follow, the stream
-- is there, and its buffer is exactly the data of the Write.
pub opened_delivers :
    (envs : ℕ → Env) (st : Stream) (s : Session) (bts rest : List ℕ)
    → 0 < st.frame_size
    → st.frame_size < 65528
    → All IsByte bts
    → st.id < 4294967296
    → lookup st.id s.streams ≡ none
    → s.die ≡ false
    → length s.ch_accepts < 1024
    → length bts < s.bucket
    → s.bucket < 2147483648
    → (w : List ℕ) × (t : Session) × (wire_bytes
          (new_frame cmd_syn st.id ∷ split st bts cmd_psh st.id)
        ≡ some w)
      × (recv_rounds (suc (length (split st bts cmd_psh st.id))) envs s (w ++ rest)
          ≡ handled (next t) rest)
      × (lookup st.id t.streams ≡ some s.next_ptr)
      × ((t.objects s.next_ptr).buffer ≡ bts)
unfolding recv_rounds
opened_delivers envs st s bts rest h0 h1 hb hs l d room lo hi =
    let n = length (split st bts cmd_psh st.id) in
    let s' = with_offer (envs n) s st.id in
    let o = with-Offered (envs n) s st.id in
    let (w, t, e, r, delivered) =
      write_delivers envs st s' st.id s.next_ptr bts rest h0 h1 hb hs o.there
        (omega (arith, o.bucket)) (omega (arith, o.bucket)) in
    let syn = header_bytes (new_frame cmd_syn st.id) ++ [] in
    let round = syn-round (envs n) s st.id (w ++ rest) hs l d room (omega arith) hi in
    (
      syn ++ w,
      t,
      syn-wire st.id (split st bts cmd_psh st.id) w e,
      ground (arith, round, r, append_assoc syn w rest),
      ground (arith, delivered.streams, o.there),
      ground (arith, delivered.buffer, o.empty),
    )
