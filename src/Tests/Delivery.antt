-- ===== src/Tests/Delivery.antt =====
-- Runs of OpenStream, Read and Write of lib/smux.
use revese_server.Base.{
  ◌++◌, ◌≢◌, if◌then◌else◌, length, ℕ, ◌≡◌, ◌<◌, List, refl, arith, [], ◌∷◌, some,
}
use revese_server.Smux.Frame.{new_frame, cmd_psh, wire_bytes}
use revese_server.Smux.Session.Recv.{
  offer_accept, handle_syn, recv_rounds, handled, next, handle_frame,
}
use revese_server.Base.Maps.{lookup, insert}
use revese_server.Base.Int.{pos}
use revese_server.Smux.Stream.{Stream, new_stream, split}
use revese_server.Smux.Config.{default_config}
use revese_server.Smux.Session.{Session, new_session, alloc_stream, write_frame, close}
use revese_server.Smux.Session.Open.{
  open_stream, register, opened, refused, go_away_error, broken_pipe, conn_failed,
}
use revese_server.Smux.Session.Open.Refused.{refused_forever}
use revese_server.Smux.Session.Open.Fresh.{open_stream_fresh}
use revese_server.Smux.Session.Machine.{here, then_step, closing}
use revese_server.Smux.Session.Delivery.Wire.{Delivered, write_delivers}
use revese_server.Tests.Sessions.{env, fresh_session, with_stream}

abbrev one_open : Session
one_open = (open_stream env fresh_session).0

abbrev two_open : Session
two_open = (open_stream env one_open).0

first_open : open_stream env fresh_session ≡ (one_open, opened 0)
unfolding new_session open_stream register alloc_stream write_frame
first_open = refl

second_open : open_stream env one_open ≡ (two_open, opened 1)
unfolding new_session open_stream register alloc_stream write_frame
second_open = refl

first_id : fresh_session.next_stream_id < 4294967296
unfolding new_session
first_id = omega arith

open_stream_fresh_example : (one_open.objects 0).id < (two_open.objects 1).id
open_stream_fresh_example =
    open_stream_fresh env env fresh_session one_open one_open two_open 0 1 first_id first_open here
      second_open

abbrev two_byte_stream : Stream
two_byte_stream = new_stream 3 2 (pos 5) (pos 100) 0

abbrev three_bytes : List ℕ
three_bytes = 104 ∷ 105 ∷ 33 ∷ []

size_low : 0 < two_byte_stream.frame_size
unfolding new_stream
size_low = omega arith

size_high : two_byte_stream.frame_size < 65528
unfolding new_stream
size_high = omega arith

stream_there : lookup 3 with_stream.streams ≡ some 0
unfolding new_session handle_frame handle_syn alloc_stream insert offer_accept lookup new_frame
stream_there = refl

tokens_there : length three_bytes < with_stream.bucket
unfolding new_session handle_frame handle_syn alloc_stream insert offer_accept default_config lookup
    new_frame
tokens_there = omega arith

tokens_positive : with_stream.bucket < 2147483648
unfolding new_session handle_frame handle_syn alloc_stream insert offer_accept default_config lookup
    new_frame
tokens_positive = omega arith

write_delivers_example :
    (w : List ℕ) × (t : Session) × (wire_bytes (split two_byte_stream three_bytes cmd_psh 3)
      ≡ some w)
    × (recv_rounds
          (length (split two_byte_stream three_bytes cmd_psh 3))
          (λ i. env)
          with_stream
          (w ++ [])
        ≡ handled (next t) [])
    × Delivered with_stream 0 three_bytes t
write_delivers_example =
    write_delivers (λ i. env) two_byte_stream with_stream 3 0 three_bytes [] size_low size_high
      (omega arith, (omega arith, (omega arith, tt))) (omega arith) stream_there tokens_there
      tokens_positive

-- The last id is taken.
abbrev ids_out : Session
ids_out = record fresh_session { next_stream_id = 4294967295 }

abbrev gone_away : Session
gone_away = (open_stream env ids_out).0

no_id_left : open_stream env ids_out ≡ (gone_away, refused go_away_error)
unfolding new_session open_stream
no_id_left = refl

for_the_ids : go_away_error ≢ conn_failed
for_the_ids = λ e. absurd (ground (arith, e))

refused_forever_example : open_stream env (close gone_away).0 ≡ (
  (close gone_away).0,
  refused (if (close gone_away).0.die then broken_pipe else go_away_error),
)
refused_forever_example =
    refused_forever env env ids_out gone_away (close gone_away).0 go_away_error no_id_left
      for_the_ids (then_step here (closing gone_away))
