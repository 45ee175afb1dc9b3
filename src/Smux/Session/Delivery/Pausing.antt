-- ===== src/Smux/Session/Delivery/Pausing.antt =====
-- A Read that comes in between the decision of pushBytes in lib/smux/stream.go to pause and its sendPause.
use revese_server.Base.{
  refl, ◌≤◌, ◌++◌, take_all, drop_all, [], ◌∷◌, List, Bool, take, false, ◌<◌, true, ◌≡◌, ◌∙◌, ap,
  subst, ℕ, arith, length,
}
use revese_server.Smux.Frame.{new_frame, cmd_ful}
use revese_server.Smux.Config.{Config}
use revese_server.Smux.Stream.{Stream}
use revese_server.Smux.Session.{Session, Env, put_stream, return_tokens, write_frame}
use revese_server.Smux.Session.Flow.{
  push_outcome, book_bytes, adapt_guess, stream_return_tokens, send_resume, send_pause,
  read_outcome,
}
use revese_server.Smux.Session.Conn.{read_pass, got, must_wait, take_bytes}
use revese_server.Smux.Session.Delivery.Reads.{take_bytes-buffer}

-- What pushBytes leaves of a stream as it is.
record Untouched (st st' : Stream) : Type 0 where
  buffer : st'.buffer ≡ st.buffer
  id : st'.id ≡ st.id
  empflag : st'.empflag ≡ st.empflag
  rstflag : st'.rstflag ≡ st.rstflag

push_outcome-Untouched :
    (env : Env) (c : Config) (st : Stream) (n : ℕ) → Untouched st (push_outcome env c st n).0
unfolding push_outcome book_bytes adapt_guess
push_outcome-Untouched env c st n = record {
  buffer = ground arith;
  id = ground arith;
  empflag = ground arith;
  rstflag = ground arith;
}

-- A Read of a stream that is not paused hands no frame over.
record Quiet (s t : Session) (p : ℕ) : Type 0 where
  sent : t.sent ≡ s.sent
  die : t.die ≡ s.die
  id : (t.objects p).id ≡ (s.objects p).id
  empflag : (t.objects p).empflag ≡ true
  rstflag : (t.objects p).rstflag ≡ (s.objects p).rstflag

take_bytes-Quiet :
    (env : Env) (s : Session) (p n : ℕ)
    → (s.objects p).empflag ≡ true
    → Quiet s (take_bytes env s p n) p
unfolding take_bytes stream_return_tokens send_resume return_tokens write_frame read_outcome
take_bytes-Quiet env s p n e = record {
  sent = ground arith;
  die = ground arith;
  id = ground arith;
  empflag = ground arith;
  rstflag = ground arith;
}

send_pause-sent :
    (env : Env) (s : Session) (p : ℕ)
    → s.die ≡ false
    → (s.objects p).empflag ≡ true
    → ((send_pause env s p).sent ≡ s.sent ++ (new_frame cmd_ful (s.objects p).id ∷ []))
      × (((send_pause env s p).objects p).empflag ≡ false)
      × (((send_pause env s p).objects p).buffer ≡ (s.objects p).buffer)
      × (((send_pause env s p).objects p).rstflag ≡ (s.objects p).rstflag)
unfolding send_pause write_frame
send_pause-sent env s p d e = (ground arith, ground arith, ground arith, ground arith)

nothing_there :
    (env : Env) (s : Session) (p len : ℕ)
    → (s.objects p).buffer ≡ []
    → (s.objects p).rstflag ≡ false
    → read_pass env s p len ≡ must_wait s
unfolding read_pass
nothing_there env s p len b r =
    let empty : take len (s.objects p).buffer ≡ [] =
      ap (λ l. take len l) b ∙ take_all len [] (omega arith) in
    rw (empty, b, r) refl

-- With a stream that has not paused its writer, on a live session, pushBytes has put its bytes into the buffer and
-- decided to pause. Before its sendPause a Read comes with a slice that takes them all, which finds nothing to
-- resume. Then sendPause hands FUL over, and the stream has paused its writer with an empty buffer: a Read waits,
-- and hands no EMP over.
pub stays_paused :
    (env env' env'' : Env) (s : Session) (p len len' : ℕ) (bytes : List ℕ) (st : Stream)
    → s.die ≡ false
    → (s.objects p).empflag ≡ true
    → (s.objects p).rstflag ≡ false
    → push_outcome env s.config
        (record (s.objects p) { buffer = (s.objects p).buffer ++ bytes })
        (length bytes)
      ≡ (st, true)
    → 0 < length ((s.objects p).buffer ++ bytes)
    → length ((s.objects p).buffer ++ bytes) ≤ len
    → (t : Session) × (read_pass env' (put_stream s p st) p len
        ≡ got t ((s.objects p).buffer ++ bytes))
      × ((send_pause env t p).sent ≡ s.sent ++ (new_frame cmd_ful (s.objects p).id ∷ []))
      × (((send_pause env t p).objects p).empflag ≡ false)
      × (((send_pause env t p).objects p).buffer ≡ [])
      × (read_pass env'' (send_pause env t p) p len' ≡ must_wait (send_pause env t p))
unfolding read_pass
stays_paused env env' env'' s p len len' bytes st live up no_fin decided lo fits =
    let all = (s.objects p).buffer ++ bytes in
    let before = record (s.objects p) { buffer = all } in
    let kept : Untouched before st =
      subst (λ x. Untouched before x) (ap (λ (x : Stream × Bool). x.0) decided)
        (push_outcome-Untouched env s.config before (length bytes)) in
    let u = put_stream s p st in
    let n = length all in
    let here : u.objects p ≡ st = ground arith in
    let quiet =
      take_bytes-Quiet env' u p n (ap (λ (x : Stream). x.empflag) here ∙ kept.empflag ∙ up) in
    let t = take_bytes env' u p n in
    let (sent, flag, buffer, rst) = send_pause-sent env t p (quiet.die ∙ live) quiet.empflag in
    let gone : (t.objects p).buffer ≡ [] =
      ground
        (arith, take_bytes-buffer env' u p n p, here, kept.buffer, drop_all n all (omega arith)) in
    (
      t,
      ground (arith, here, kept.buffer, take_all len all fits),
      sent ∙ ground (arith, quiet.sent, quiet.id, here, kept.id),
      flag,
      buffer ∙ gone,
      nothing_there env'' (send_pause env t p) p len' (buffer ∙ gone)
          (rst ∙ quiet.rstflag ∙ ap (λ (x : Stream). x.rstflag) here ∙ kept.rstflag ∙ no_fin),
    )
