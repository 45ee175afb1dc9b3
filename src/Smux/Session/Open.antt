-- ===== src/Smux/Session/Open.antt =====
-- OpenStream and AcceptStream of lib/smux/session.go.
pub mod Fresh
pub mod Refused
use revese_server.Base.{ℕ, ◌+◌, ◌%◌, true, List, [], ◌∷◌, none, some, ◌==◌, if◌then◌else◌}
use revese_server.Base.Maps.{insert}
use revese_server.Smux.Frame.{new_frame, cmd_syn}
use revese_server.Smux.Session.{Session, Env, alloc_stream, write_frame}

-- The errors of a session and of its streams. `conn_failed` is an error of the connection below.
pub data Error : Type 0 where
  broken_pipe go_away_error conn_failed timed_out eof : Error

pub data OpenResult : Type 0 where
  opened : ℕ → OpenResult
  refused : Error → OpenResult

-- The stream enters the map after its SYN was written.
unfoldable pub register : Env → Session → ℕ → Session × OpenResult
register env s sid =
    let p = s.next_ptr in
    let (s', written) = write_frame env (alloc_stream env s sid) (new_frame cmd_syn sid) in
    if written
    then (record s' { streams = insert sid p s'.streams }, opened p)
    else (s', refused conn_failed)

-- OpenStream. `sid == sid%2` is the test for an id that wrapped around.
unfoldable pub open_stream : Env → Session → Session × OpenResult
open_stream env s =
    if s.die
    then (s, refused broken_pipe)
    else if s.go_away
    then (s, refused go_away_error)
    else let sid = (s.next_stream_id + 2) % 4294967296 in
      if sid == sid % 2
      then (record s { next_stream_id = sid; go_away = true }, refused go_away_error)
      else register env (record s { next_stream_id = sid }) sid

-- What the select of AcceptStream takes, where it has a choice.
pub data AcceptChoice : Type 0 where
  take_stream take_deadline take_die : AcceptChoice

pub data AcceptResult : Type 0 where
  accepted_stream : ℕ → AcceptResult
  accept_failed : Error → AcceptResult
  accept_waits : AcceptResult

unfoldable pub accept_from : Session → List ℕ → Session × AcceptResult
accept_from s [] = (s, accept_waits)
accept_from s (p ∷ ps) = (record s { ch_accepts = ps }, accepted_stream p)

-- AcceptStream. A case that is not ready is not taken: the call waits.
unfoldable pub accept_stream : AcceptChoice → Session → Session × AcceptResult
accept_stream take_stream s = accept_from s s.ch_accepts
accept_stream take_deadline s = elim s.deadline [
  | none ↦ (s, accept_waits)
  | some d ↦ (s, accept_failed timed_out)
]
accept_stream take_die s = if s.die then (s, accept_failed broken_pipe) else (s, accept_waits)
