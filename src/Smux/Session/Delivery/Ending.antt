-- ===== src/Smux/Session/Delivery/Ending.antt =====
-- How a stream ends for its reader: with the peer's FIN, or with the session.
use revese_server.Base.{
  ltb, length-append, length-eq_zero, Bool-cases, inl, inr, ◌<◌, ap, length-take, take, arith, drop,
  length, ◌++◌, ◌≡◌, ℕ, List, zero, suc, refl, some, true, false, [], ◌∷◌,
}
use revese_server.Smux.Session.{
  new_frame, Session, Env, put_stream, return_tokens, write_frame, detach, stream_closed, close,
  close_streams, update, num_streams,
}
use revese_server.Base.Maps.{lookup}
use revese_server.Smux.Frame.{new_frame, cmd_fin}
use revese_server.Smux.Stream.{Stream, session_close}
use revese_server.Smux.Session.Flow.{stream_return_tokens, send_resume, read_outcome}
use revese_server.Smux.Session.Open.{
  Error, eof, broken_pipe, refused, open_stream, accept_failed, accept_stream, take_die,
}
use revese_server.Smux.Session.Conn.{
  read_pass, got, read_error, must_wait, read_panic, take_bytes, close_stream, WaitChoice,
  wait_error, read_wait, write_wait, FrameReply, write,
}
use revese_server.Smux.Session.Delivery.Reads.{read_pass_lem}

-- What passes of Read come to that are made until one does not give bytes, with a slice of `len` bytes.
pub data ReadEnd : Type 0 where
  at_end : List ℕ → Error → ReadEnd
  at_wait : List ℕ → ReadEnd
  at_panic : ReadEnd
  out_of_fuel : ReadEnd

abbrev pub after_bytes : List ℕ → ReadEnd → ReadEnd
after_bytes bytes (at_end more e) = at_end (bytes ++ more) e
after_bytes bytes (at_wait more) = at_wait (bytes ++ more)
after_bytes bytes at_panic = at_panic
after_bytes bytes out_of_fuel = out_of_fuel

unfoldable pub read_until : ℕ → (ℕ → Env) → Session → ℕ → ℕ → ReadEnd
read_until zero envs s p len = out_of_fuel
read_until (suc fuel) envs s p len = elim (read_pass (envs fuel) s p len) [
  | got t bytes ↦ after_bytes bytes (read_until fuel envs t p len)
  | read_error t e ↦ at_end [] e
  | must_wait t ↦ at_wait []
  | read_panic ↦ at_panic
]

-- The peer has closed the stream, which its reader still holds.
pub record Finished (s : Session) (p : ℕ) : Type 0 where
  pub reset : (s.objects p).rstflag ≡ true
  pub live : (s.objects p).die ≡ false
  pub there : lookup (s.objects p).id s.streams ≡ some p

-- A Read leaves all that is Finished.
stream_return_tokens_keeps :
    (env : Env) (s : Session) (p n : ℕ)
    → let t = stream_return_tokens env s p n in
      ((t.objects p).id ≡ (s.objects p).id)
      × ((t.objects p).rstflag ≡ (s.objects p).rstflag)
      × ((t.objects p).die ≡ (s.objects p).die)
      × (t.streams ≡ s.streams)
unfolding stream_return_tokens send_resume read_outcome write_frame
stream_return_tokens_keeps env s p n = ground arith

take_bytes-Finished :
    (env : Env) (s : Session) (p n : ℕ) → Finished s p → Finished (take_bytes env s p n) p
unfolding take_bytes return_tokens
take_bytes-Finished env s p n h =
    let s' =
      return_tokens (put_stream s p (record (s.objects p) { buffer = drop n (s.objects p).buffer }))
        n in
    let (id, rst, die, streams) = stream_return_tokens_keeps env s' p n in
    record {
      reset = ground (arith, rst, h.reset);
      live = ground (arith, die, h.live);
      there = ground (arith, id, streams, h.there);
    }

take-empty : (len : ℕ) (b : List ℕ) → b ≡ [] → length (take len b) ≡ 0
take-empty len b e = omega (arith, length-take len b, ap (λ x. length x) e)

pass-at_end :
    (env : Env) (s : Session) (p len : ℕ)
    → (s.objects p).buffer ≡ []
    → Finished s p
    → (t : Session) × (read_pass env s p len ≡ read_error t eof)
unfolding read_pass close_stream stream_closed
pass-at_end env s p len b h =
    let gone = detach (put_stream s p (record (s.objects p) { die = true })) (s.objects p).id p in
    (
      (write_frame env gone (new_frame cmd_fin (s.objects p).id)).0,
      ground (arith, take-empty len (s.objects p).buffer b, b, h.reset, h.live, h.there),
    )

read_pass-Finished :
    (env : Env) (s t : Session) (p len : ℕ) (bytes : List ℕ)
    → Finished s p
    → read_pass env s p len ≡ got t bytes
    → Finished t p
unfolding read_pass
read_pass-Finished env s t p len bytes h e =
    ground (arith, h, take_bytes-Finished env s p (length (take len (s.objects p).buffer)) h)

-- Once the peer's FIN was handled, whoever goes on reading a stream that is open, with slices that are
-- not empty, gets all the bytes that are left, in order, and then EOF: after at most as many passes as
-- there are bytes, and one more. No pass waits or panics.
pub read_until_end :
    (fuel : ℕ) (envs : ℕ → Env) (s : Session) (p len : ℕ)
    → 0 < len
    → Finished s p
    → length (s.objects p).buffer < fuel
    → read_until fuel envs s p len ≡ at_end (s.objects p).buffer eof
unfolding read_until
read_until_end zero envs s p len h f k = elim k [ ]
read_until_end (suc fuel) envs s p len h f k =
    elim (Bool-cases (ltb 0 (length (s.objects p).buffer))) [
      | inl more ↦
          let (t, bytes, e, whole, some_bytes, few, others) =
            read_pass_lem (envs fuel) s p len h (ground (arith, more)) in
          let shorter : length (t.objects p).buffer < fuel = omega (
            arith,
            k,
            some_bytes,
            ap (λ x. length x) whole,
            length-append bytes (t.objects p).buffer,
          ) in
          let rest =
            read_until_end fuel envs t p len h (read_pass-Finished (envs fuel) s t p len bytes f e)
              shorter in
          ground (arith, e, rest, whole)
      | inr none_left ↦
          let empty : (s.objects p).buffer ≡ [] =
            length-eq_zero (s.objects p).buffer (ground (arith, none_left)) in
          let (t, e) = pass-at_end (envs fuel) s p len empty f in ground (arith, e, empty)
    ]

close_streams_stays :
    (m : List (ℕ × ℕ)) (objects : ℕ → Stream) (p : ℕ)
    → (objects p).die ≡ true
    → (close_streams m objects p).die ≡ true
unfolding close_streams session_close
close_streams_stays [] objects p e = e
close_streams_stays ((k, q) ∷ m) objects p e =
    close_streams_stays m (update objects q (session_close (objects q))) p (ground (arith, e))

close_streams_dies :
    (m : List (ℕ × ℕ)) (objects : ℕ → Stream) (sid p : ℕ)
    → lookup sid m ≡ some p
    → (close_streams m objects p).die ≡ true
unfolding close_streams lookup session_close
close_streams_dies [] objects sid p e = absurd (ground arith)
close_streams_dies ((k, q) ∷ m) objects sid p e =
    let objects' = update objects q (session_close (objects q)) in
    ground (arith, close_streams_dies m objects' sid p, close_streams_stays m objects' p)

close_streams_buffer :
    (m : List (ℕ × ℕ)) (objects : ℕ → Stream) (p : ℕ)
    → (close_streams m objects p).buffer ≡ (objects p).buffer
unfolding close_streams session_close
close_streams_buffer [] objects p = refl
close_streams_buffer ((k, q) ∷ m) objects p =
    ground (arith, close_streams_buffer m (update objects q (session_close (objects q))) p)

-- After Close of a session that was not closed, OpenStream and a Write on a stream of the session fail
-- with a broken pipe, whatever the Write waits for. In the select of AcceptStream the case of the session's
-- end, and in those of a Read and of a Write that waits the case of the stream's end, is there to take and
-- gives a broken pipe. The streams that AcceptStream has not given yet are still queued for it, and the bytes
-- that were received and not read are still in the stream's buffer.
pub calls_after_close :
    (env : Env) (s : Session) (sid p : ℕ) (bytes : List ℕ) (c : WaitChoice) (rs : List FrameReply)
    → s.die ≡ false
    → lookup sid s.streams ≡ some p
    → let t = (close s).0 in
      (open_stream env t ≡ (t, refused broken_pipe))
      × (accept_stream take_die t ≡ (t, accept_failed broken_pipe))
      × (write t p bytes c rs ≡ some (t, 0, some broken_pipe))
      × (read_wait WaitChoice.take_die t p ≡ wait_error broken_pipe)
      × (write_wait WaitChoice.take_die t p ≡ wait_error broken_pipe)
      × ((t.objects p).buffer ≡ (s.objects p).buffer)
      × (t.ch_accepts ≡ s.ch_accepts)
      × (num_streams t ≡ 0)
unfolding close open_stream accept_stream write read_wait write_wait num_streams
calls_after_close env s sid p bytes c rs l there =
    let dead = close_streams_dies s.streams s.objects sid p there in
    let kept = close_streams_buffer s.streams s.objects p in
    (
      ground (arith, l),
      ground (arith, l),
      ground (arith, l, dead),
      ground (arith, l, dead),
      ground (arith, l, dead),
      ground (arith, l, kept),
      ground (arith, l),
      ground (arith, l),
    )
