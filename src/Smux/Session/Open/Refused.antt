-- ===== src/Smux/Session/Open/Refused.antt =====
-- A session of lib/smux/session.go that has refused to open a stream, for another reason than its connection.
use revese_server.Base.{◌≡◌, ◌≢◌, ◌⊎◌, true, if◌then◌else◌, inl, inr, arith}
use revese_server.Smux.Session.{Session, Env, alloc_stream, write_frame}
use revese_server.Smux.Session.Open.{
  open_stream, register, refused, Error, broken_pipe, go_away_error, conn_failed,
}
use revese_server.Smux.Session.Machine.{Reach}
use revese_server.Smux.Session.Kept.{Reach-Kept}

refused_flags :
    (env : Env) (s : Session) {t : Session} {e : Error}
    → open_stream env s ≡ (t, refused e)
    → e ≢ conn_failed
    → (t.die ≡ true) ⊎ (t.go_away ≡ true)
unfolding open_stream register write_frame alloc_stream
refused_flags env s h n = ground (arith, h, n)

refusing :
    (env : Env) (s : Session)
    → (s.die ≡ true) ⊎ (s.go_away ≡ true)
    → open_stream env s ≡ (s, refused (if s.die then broken_pipe else go_away_error))
unfolding open_stream
refusing env s h = ground (arith, h)

-- Once OpenStream has been refused, because the session had ended or its ids had run out, it is refused for
-- ever, whatever happens in between, and changes nothing: with a broken pipe if the session has ended by then,
-- and for the ids otherwise.
pub refused_forever :
    (env env' : Env) (s s' t : Session) (e : Error)
    → open_stream env s ≡ (s', refused e)
    → e ≢ conn_failed
    → Reach s' t
    → open_stream env' t ≡ (t, refused (if t.die then broken_pipe else go_away_error))
refused_forever env env' s s' t e h n r =
    let k = Reach-Kept r in
    refusing env' t
      (elim (refused_flags env s h n) [ inl d ↦ inl (k.end d) | inr g ↦ inr (k.gone g) ])
