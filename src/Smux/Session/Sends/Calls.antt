-- ===== src/Smux/Session/Sends/Calls.antt =====
-- What Close and Read of a stream and the ticks of the keepalive send.
use revese_server.Base.{
  if-both, ℕ, ◌+◌, ◌%◌, ◌≡◌, true, false, if◌then◌else◌, [], Option, none, some, refl, subst, arith,
  inl, inr, Bool-cases, Option-cases, length, ltb, take, drop,
}
use revese_server.Base.Maps.{lookup}
use revese_server.Smux.Frame.{new_frame, cmd_fin, cmd_nop}
use revese_server.Smux.Stream.{recycle_tokens}
use revese_server.Smux.Session.{
  Session, Env, put_stream, write_frame, notify_bucket, return_tokens, close, stream_closed, detach,
}
use revese_server.Smux.Session.Open.{Error, eof}
use revese_server.Smux.Session.Recv.{ping, tick_ping, tick_timeout}
use revese_server.Smux.Session.Conn.{
  WaitChoice, woken, read_wait, close_stream, ReadPass, read_pass, read_error, got, must_wait,
  read_panic, take_bytes,
}
use revese_server.Smux.Session.Machine.{pass_state}
use revese_server.Smux.Session.Sends.{
  Fit, bare-Sendable, write_frame-Fit, silent-Fit, put-Fit, stream_return_tokens-Fit,
}
use revese_server.Smux.Session.Sends.Steps.{close-Fit}

pub ping-Fit : (env : Env) (s : Session) → Fit s → Fit (ping env s)
unfolding ping
ping-Fit env s h =
    let sn = (s.rtt_sn + 1) % 4294967296 in
    write_frame-Fit env (record s { rtt_test = env.now; rtt_sn = sn }) (new_frame cmd_nop sn)
      (bare-Sendable cmd_nop sn (omega arith) (omega arith))
      (silent-Fit {s = s} (ground arith) refl h)

pub tick_ping-Fit : (env : Env) (s : Session) → Fit s → Fit (tick_ping env s)
unfolding tick_ping notify_bucket
tick_ping-Fit env s h = silent-Fit {s = ping env s} (ground arith) refl (ping-Fit env s h)

pub tick_timeout-Fit : (s : Session) → Fit s → Fit (tick_timeout s)
unfolding tick_timeout
tick_timeout-Fit s h =
    if-both Fit s.data_ready (record s { data_ready = false }) (close s).0
      (silent-Fit {s = s} (ground arith) refl h) (close-Fit s h)

-- Close of a stream.
return_tokens-Fit : (s : Session) (n : ℕ) → Fit s → Fit (return_tokens s n)
unfolding return_tokens
return_tokens-Fit s n h = silent-Fit {s = s} (ground arith) refl h

detach-Fit : (s : Session) (sid p : ℕ) → Fit s → Fit (detach s sid p)
unfolding detach recycle_tokens
detach-Fit s sid p h =
    let t = put_stream s p (recycle_tokens (s.objects p)).1 in
    let n = length (s.objects p).buffer in
    let put : Fit t = put-Fit s p (recycle_tokens (s.objects p)).1 refl refl h in
    let u = if ltb 0 n then return_tokens t n else t in
    let back : Fit u =
      if-both Fit (ltb 0 n) (return_tokens t n) t (return_tokens-Fit t n put) put in
    silent-Fit {s = u} (ground arith) refl back

pub close_stream-Fit :
    (env : Env) (s : Session) (p : ℕ) (t : Session) (e : Option Error)
    → close_stream env s p ≡ some (t, e)
    → Fit s
    → Fit t
unfolding close_stream stream_closed
close_stream-Fit env s p t e q h = elim (Bool-cases (s.objects p).die) [
  | inl d ↦ subst Fit {x = s} (ground (arith, d, q)) h
  | inr d ↦
      let dead = put_stream s p (record (s.objects p) { die = true }) in
      let killed : Fit dead = put-Fit s p (record (s.objects p) { die = true }) refl refl h in
      let id = (s.objects p).id in
      elim (Option-cases (lookup id s.streams)) [
        | inl l ↦ absurd (ground (arith, d, l, q))
        | inr (p', l) ↦
            let u = (write_frame env (detach dead id p') (new_frame cmd_fin id)).0 in
            let said : Fit u =
              write_frame-Fit env (detach dead id p') (new_frame cmd_fin id)
                (bare-Sendable cmd_fin id (omega arith) (h.shaped.ids p))
                (detach-Fit dead id p' killed) in
            subst Fit {x = u} (ground (arith, d, l, q)) said
      ]
]

take_bytes-Fit : (env : Env) (s : Session) (p n : ℕ) → Fit s → Fit (take_bytes env s p n)
unfolding take_bytes
take_bytes-Fit env s p n h =
    let st = record (s.objects p) { buffer = drop n (s.objects p).buffer } in
    stream_return_tokens-Fit env (return_tokens (put_stream s p st) n) p n
      (return_tokens-Fit (put_stream s p st) n (put-Fit s p st refl refl h))

pub read_pass-Fit :
    (env : Env) (s : Session) (p len : ℕ) → Fit s → Fit (pass_state s (read_pass env s p len))
unfolding read_pass
read_pass-Fit env s p len h =
    let bytes = take len (s.objects p).buffer in
    let ended : ReadPass = elim (close_stream env s p) [
      | none ↦ read_panic
      | some (s', e) ↦ read_error s' eof
    ] in
    let idle = if (s.objects p).rstflag then ended else must_wait s in
    let rest = if ltb 0 (length (s.objects p).buffer) then got s [] else idle in
    let closes : Fit (pass_state s ended) = elim (Option-cases (close_stream env s p)) [
      | inl q ↦ ground (arith, q, h)
      | inr ((t, e), q) ↦ subst Fit {x = t} (ground (arith, q)) (close_stream-Fit env s p t e q h)
    ] in
    if-both (λ x. Fit (pass_state s x)) (ltb 0 (length bytes))
      (got (take_bytes env s p (length bytes)) bytes) rest (take_bytes-Fit env s p (length bytes) h)
      (if-both (λ x. Fit (pass_state s x)) (ltb 0 (length (s.objects p).buffer)) (got s []) idle h
        (if-both (λ x. Fit (pass_state s x)) (s.objects p).rstflag ended (must_wait s) closes h))

pub read_wait-Fit :
    (c : WaitChoice) (s : Session) (p : ℕ) (t : Session) → read_wait c s p ≡ woken t → Fit s → Fit t
unfolding read_wait
read_wait-Fit WaitChoice.take_event s p t q h =
    subst Fit {x = put_stream s p (record (s.objects p) { ch_read_event = false })}
      (ground (arith, q)) (put-Fit s p (record (s.objects p) { ch_read_event = false }) refl refl h)
read_wait-Fit WaitChoice.take_deadline s p t q h = absurd (ground (arith, q))
read_wait-Fit WaitChoice.take_die s p t q h = absurd (ground (arith, q))
