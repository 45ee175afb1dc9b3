-- ===== src/Smux/Session/Open/Fresh.antt =====
-- The stream ids that OpenStream gives out.
use revese_server.Base.{false, ℕ, ◌+◌, ◌<◌, ◌≡◌, arith}
use revese_server.Smux.Session.{Session, Env, write_frame, alloc_stream}
use revese_server.Smux.Session.Open.{open_stream, register, opened}
use revese_server.Smux.Session.Machine.{Reach}
use revese_server.Smux.Session.Kept.{Kept, Reach-Kept}
use revese_server.Smux.Stream.{new_stream}

-- A stream that was opened carries the next id of the session, which did not wrap.
open_stream_id :
    (env : Env) (s : Session) {t : Session} {p : ℕ}
    → s.next_stream_id < 4294967296
    → open_stream env s ≡ (t, opened p)
    → ((t.objects p).id ≡ s.next_stream_id + 2)
      × (t.next_stream_id ≡ s.next_stream_id + 2)
      × (t.next_stream_id < 4294967296)
      × (s.go_away ≡ false)
unfolding open_stream register write_frame alloc_stream new_stream
open_stream_id env s h e = ground arith

-- Of two streams that OpenStream returns in one history of a session, whatever happens in between,
-- the later one has the greater id.
pub open_stream_fresh :
    (env env' : Env) (s s' t t' : Session) (p q : ℕ)
    → s.next_stream_id < 4294967296
    → open_stream env s ≡ (s', opened p)
    → Reach s' t
    → open_stream env' t ≡ (t', opened q)
    → (s'.objects p).id < (t'.objects q).id
open_stream_fresh env env' s s' t t' p q h e r e' =
    let (id, next, range, live) = open_stream_id env s h e in
    let kept : Kept s' t = Reach-Kept r in
    let (id', next', range', live') = open_stream_id env' t (kept.range range) e' in
    omega (arith, id, next, id', kept.ids range live')
