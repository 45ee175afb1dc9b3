-- ===== src/Streamcoder/Conn.antt =====
-- The connection that the wrappers of lib/streamcoder stand on, a net.Conn, as an interface: its state is
-- the implementation's. An answer ends with whether there was an error.
use revese_server.Base.{ℕ, ◌≤◌, Bool, true, List, [], ◌∷◌, length, if◌then◌else◌}

-- A Read is given the length of the caller's slice and gives the bytes that it put there. The laws are
-- what io.Reader and io.Writer say: no more bytes than there is room for, or than there are.
-- A Write leaves the caller's slice as it is, as io.Writer demands; that of Coder does not, and whoever
-- looks at the slice afterwards, as FlowDump does for its log, would see the encrypted bytes.
pub record NetConn : Type 1 where
  pub State : Type 0
  pub read : State → ℕ → State × List ℕ × Bool
  pub write : State → List ℕ → State × ℕ × Bool
  pub close : State → State × Bool
  pub set_read_deadline : State → ℕ → State × Bool
  pub set_write_deadline : State → ℕ → State × Bool
  pub read_bound : (s : State) (len : ℕ) → length (read s len).1 ≤ len
  pub write_bound : (s : State) (bytes : List ℕ) → (write s bytes).1 ≤ length bytes

-- SetDeadline, which all wrappers have: the deadline for writes is set only if that for reads could be.
unfoldable pub set_deadline : (c : NetConn) → c.State → ℕ → c.State × Bool
set_deadline c s t =
    let (s', failed) = c.set_read_deadline s t in
    if failed then (s', true) else c.set_write_deadline s' t

-- A call of a connection, and what it answers.
pub data Call : Type 0 where
  reads : ℕ → Call
  writes : List ℕ → Call
  closes : Call
  delays : ℕ → Call

pub data Answer : Type 0 where
  got : List ℕ → Bool → Answer
  put : ℕ → Bool → Answer
  done : Bool → Answer

unfoldable pub call : (c : NetConn) → c.State → Call → c.State × Answer
call c s (reads len) = let (s', bytes, failed) = c.read s len in (s', got bytes failed)
call c s (writes bytes) = let (s', n, failed) = c.write s bytes in (s', put n failed)
call c s closes = let (s', failed) = c.close s in (s', done failed)
call c s (delays t) = let (s', failed) = set_deadline c s t in (s', done failed)

-- The answers of calls one after the other, and the state in the end.
unfoldable pub calls : (c : NetConn) → c.State → List Call → c.State × List Answer
calls c s [] = (s, [])
calls c s (k ∷ ks) = let (s', a) = call c s k in let (s'', rest) = calls c s' ks in (s'', a ∷ rest)
