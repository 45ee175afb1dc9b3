-- ===== src/Smux/Session/Tokens/Flow.antt =====
-- The account through writeFrame, newStream, pushBytes, the flow control and streamClosed.
use revese_server.Base.{
  ℕ, ◌<◌, ◌≡◌, refl, ap, Bool, List, [], ◌∷◌, ◌++◌, some, arith, length, length-append, Bool-cases,
  subst, inl, inr, ltb,
}
use revese_server.Base.Int.{pos_part}
use revese_server.Base.Maps.{lookup, erase, insert, lookup-erase, lookup-insert}
use revese_server.Smux.Frame.{Frame}
use revese_server.Smux.Config.{Config}
use revese_server.Smux.Stream.{Stream, new_stream, session_close, recycle_tokens}
use revese_server.Smux.Session.{
  Session, Env, update, put_stream, return_tokens, write_frame, alloc_stream, close_streams, close,
  detach,
}
use revese_server.Smux.Session.Flow.{
  send_pause, send_resume, book_bytes, adapt_guess, push_outcome, read_outcome, push_bytes,
  stream_return_tokens,
}
use revese_server.Smux.Session.Tokens.{
  buffered, Owes, Same, Same-Owes, Same-trans, buffered_new, return_tokens-Owes, put-Owes,
}

-- An object that is replaced by one with the same buffer.
pub put-Same :
    (s : Session) (p : ℕ) (st : Stream)
    → st.buffer ≡ (s.objects p).buffer
    → Same s (put_stream s p st)
put-Same s p st e = record {
  bucket = refl;
  next_ptr = refl;
  streams = refl;
  config = refl;
  buffers = λ q. ground arith;
}

pub write_frame-Same : (env : Env) (s : Session) (f : Frame) → Same s (write_frame env s f).0
unfolding write_frame
write_frame-Same env s f = record {
  bucket = ground arith;
  next_ptr = ground arith;
  streams = ground arith;
  config = ground arith;
  buffers = λ q. ground arith;
}

pub send_pause-Same : (env : Env) (s : Session) (p : ℕ) → Same s (send_pause env s p)
unfolding send_pause write_frame
send_pause-Same env s p = record {
  bucket = ground arith;
  next_ptr = ground arith;
  streams = ground arith;
  config = ground arith;
  buffers = λ q. ground arith;
}

pub send_resume-Same : (env : Env) (s : Session) (p : ℕ) → Same s (send_resume env s p)
unfolding send_resume write_frame
send_resume-Same env s p = record {
  bucket = ground arith;
  next_ptr = ground arith;
  streams = ground arith;
  config = ground arith;
  buffers = λ q. ground arith;
}

pub alloc_stream-Owes :
    {cap : ℕ} (env : Env) (s : Session) (sid k : ℕ)
    → Owes cap s k
    → Owes cap (alloc_stream env s sid) k
unfolding alloc_stream new_stream buffered
alloc_stream-Owes env s sid k h = record {
  valid = λ j p l. omega (arith, h.valid j p l);
  in_range = h.in_range;
  account = ground (arith, h.account, buffered_new s.next_ptr s.next_ptr s.objects fresh);
  room = ground (arith, h.room, buffered_new s.next_ptr s.next_ptr s.objects fresh);
}
  where
    fresh : Stream
    fresh =
        new_stream sid (pos_part s.config.max_frame_size) s.config.boost_timeout
          s.config.max_stream_buffer env.now

close_streams-buffer :
    (m : List (ℕ × ℕ)) (o : ℕ → Stream) (q : ℕ) → (close_streams m o q).buffer ≡ (o q).buffer
unfolding close_streams session_close
close_streams-buffer [] o q = refl
close_streams-buffer ((sid, p) ∷ m) o q =
    ground (arith, close_streams-buffer m (update o p (session_close (o p))) q)

pub close-Same : (s : Session) → Same s (close s).0
unfolding close
close-Same s = record {
  bucket = ground arith;
  next_ptr = ground arith;
  streams = ground arith;
  config = ground arith;
  buffers = λ q. ground (arith, close_streams-buffer s.streams s.objects q);
}

pub Owes-of : {cap : ℕ} (s : Session) {j k : ℕ} → j ≡ k → Owes cap s j → Owes cap s k
Owes-of {cap} s e = subst (Owes cap s) e

module _ {cap : ℕ} (env : Env) (s : Session) (p : ℕ) (bytes : List ℕ) (h : p < s.next_ptr)
    (o : Owes cap s (length bytes)) where
  pushed :
      (st : Stream) → st.buffer ≡ (s.objects p).buffer ++ bytes → Owes cap (put_stream s p st) 0
  pushed st e =
      put-Owes s p 0 (length bytes) st h
        (omega (arith, ap length e, length-append (s.objects p).buffer bytes)) o

  paused :
      (st : Stream)
      → st.buffer ≡ (s.objects p).buffer ++ bytes
      → Owes cap (send_pause env (put_stream s p st) p) 0
  paused st e = Same-Owes _ _ 0 (send_pause-Same env (put_stream s p st) p) (pushed st e)

push_outcome-buffer :
    (env : Env) (config : Config) (st : Stream) (n : ℕ)
    → (push_outcome env config st n).0.buffer ≡ st.buffer
unfolding push_outcome book_bytes adapt_guess
push_outcome-buffer env config st n = ground arith

-- The bytes that are pushed come off what is owed.
pub push_bytes-Owes :
    {cap : ℕ} (env : Env) (s : Session) (p : ℕ) (bytes : List ℕ)
    → p < s.next_ptr
    → Owes cap s (length bytes)
    → Owes cap (push_bytes env s p bytes) 0
unfolding push_bytes
push_bytes-Owes env s p bytes h o =
    let st : Stream = record (s.objects p) { buffer = (s.objects p).buffer ++ bytes } in
    let r : Stream × Bool = push_outcome env s.config st (length bytes) in
    let e : r.0.buffer ≡ (s.objects p).buffer ++ bytes =
      push_outcome-buffer env s.config st (length bytes) in
    elim (Bool-cases r.1) [
      | inl pause ↦ rw (pause, push_bytes) (paused env s p bytes h o r.0 e)
      | inr keep ↦ rw (keep, push_bytes) (pushed env s p bytes h o r.0 e)
    ]

pub Same-refl : (s : Session) → Same s s
Same-refl s = record {
  bucket = refl;
  next_ptr = refl;
  streams = refl;
  config = refl;
  buffers = λ q. refl;
}

pub stream_return_tokens-Same :
    (env : Env) (s : Session) (p n : ℕ) → Same s (stream_return_tokens env s p n)
unfolding stream_return_tokens read_outcome
stream_return_tokens-Same env s p n =
    let r : Stream × Bool = read_outcome env s.rtt (s.objects p) n in
    let put : Same s (put_stream s p r.0) = put-Same s p r.0 refl in
    elim (Bool-cases s.config.enable_stream_buffer) [
      | inl enabled ↦ elim (Bool-cases r.1) [
        | inl resume ↦ simp (enabled, resume) (Same-trans _ _ _ put (send_resume-Same env _ p))
        | inr keep ↦ simp (enabled, keep) put
      ]
      | inr disabled ↦ simp disabled (Same-refl s)
    ]

pub erase-valid :
    (s : Session) (sid : ℕ)
    → ((j p : ℕ) → lookup j s.streams ≡ some p → p < s.next_ptr)
    → (j p : ℕ) → lookup j (erase sid s.streams) ≡ some p
    → p < s.next_ptr
erase-valid s sid v j p l = ground (arith, lookup-erase sid j s.streams, v j p)

pub insert-valid :
    (s : Session) (sid q : ℕ)
    → q < s.next_ptr
    → ((j p : ℕ) → lookup j s.streams ≡ some p → p < s.next_ptr)
    → (j p : ℕ) → lookup j (insert sid q s.streams) ≡ some p
    → p < s.next_ptr
insert-valid s sid q h v j p l = ground (arith, lookup-insert s.streams sid j q, v j p)

erase-Owes :
    {cap : ℕ} (s : Session) (sid k : ℕ)
    → Owes cap s k
    → Owes cap (record s { streams = erase sid s.streams }) k
erase-Owes {cap} s sid k o = record {
  valid = erase-valid s sid o.valid;
  in_range = o.in_range;
  account = o.account;
  room = o.room;
}

-- The body of streamClosed books the bytes that the stream still buffered.
pub detach-Owes :
    {cap : ℕ} (s : Session) (sid p : ℕ)
    → p < s.next_ptr
    → Owes cap s 0
    → Owes cap (detach s sid p) 0
unfolding detach recycle_tokens return_tokens
detach-Owes {cap} s sid p h o = elim (Bool-cases (ltb 0 n)) [
  | inl some_left ↦
      rw (some_left, detach)
        (erase-Owes _ sid 0 (return_tokens-Owes t n 0 (Owes-of t (omega arith) emptied)))
  | inr empty ↦ rw (empty, detach) (erase-Owes t sid 0 (Owes-of t (ground arith) emptied))
]
  where
    n : ℕ
    n = length (s.objects p).buffer

    t : Session
    t = put_stream s p (record (s.objects p) { buffer = [] })

    emptied : Owes cap t n
    emptied = put-Owes s p n 0 (record (s.objects p) { buffer = [] }) h (omega arith) o
