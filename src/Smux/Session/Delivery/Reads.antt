-- ===== src/Smux/Session/Delivery/Reads.antt =====
-- What Read takes from a buffer.
use revese_server.Base.{◌⊎◌}
use revese_server.Base.{
  ◌⊎◌, drop, ◌==◌, take-append-drop-length, if◌then◌else◌, length-take, take, ◌≤◌, ◌++◌, List,
  length, arith, ◌<◌, ◌≡◌,
}
use revese_server.Smux.Session.{ℕ, Session, Env, put_stream, return_tokens, write_frame}
use revese_server.Smux.Session.Flow.{stream_return_tokens, send_resume, read_outcome}
use revese_server.Smux.Session.Conn.{read_pass, got, take_bytes}

stream_return_tokens-buffer :
    (env : Env) (s : Session) (p n q : ℕ)
    → ((stream_return_tokens env s p n).objects q).buffer ≡ (s.objects q).buffer
unfolding stream_return_tokens send_resume read_outcome write_frame
stream_return_tokens-buffer env s p n q = ground arith

pub take_bytes-buffer :
    (env : Env) (s : Session) (p n q : ℕ)
    → ((take_bytes env s p n).objects q).buffer
      ≡ (if q == p then drop n (s.objects p).buffer else (s.objects q).buffer)
unfolding take_bytes return_tokens
take_bytes-buffer env s p n q = ground (
  arith,
  stream_return_tokens-buffer env
      (return_tokens
        (put_stream s p (record (s.objects p) { buffer = drop n (s.objects p).buffer })) n)
      p n q,
)

-- A pass of Read that returns bytes takes them off the front of its stream's buffer, at most as many
-- as the slice holds, and leaves every other buffer alone; where the buffer and the slice are not
-- empty it does return bytes.
pub read_pass_lem :
    (env : Env) (s : Session) (p len : ℕ)
    → 0 < len
    → 0 < length (s.objects p).buffer
    → (t : Session) × (bytes : List ℕ) × (read_pass env s p len ≡ got t bytes)
      × (bytes ++ (t.objects p).buffer ≡ (s.objects p).buffer)
      × (0 < length bytes)
      × (length bytes ≤ len)
      × ((q : ℕ) → (q ≡ p) ⊎ ((t.objects q).buffer ≡ (s.objects q).buffer))
unfolding read_pass
read_pass_lem env s p len h b = (
  take_bytes env s p (length bytes),
  bytes,
  ground (arith, some_bytes),
  ground (
    arith,
    take_bytes-buffer env s p (length bytes) p,
    take-append-drop-length len (s.objects p).buffer,
  ),
  some_bytes,
  omega (arith, length-take len (s.objects p).buffer),
  λ q. ground (arith, take_bytes-buffer env s p (length bytes) q),
)
  where
    bytes : List ℕ
    bytes = take len (s.objects p).buffer

    some_bytes : 0 < length bytes
    some_bytes = omega (arith, length-take len (s.objects p).buffer)
