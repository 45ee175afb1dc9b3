-- ===== src/Programs/Copy.antt =====
-- handleClient and cp of hub.go and client.go: the copying between two connections. io.CopyBuffer of the
-- standard library is modelled as its documented loop of Read and Write; the ways round it that some
-- connections offer (WriterTo, ReaderFrom) copy the same.
pub mod Crossing
use revese_server.Base.{
  ◌&&◌, ◌==◌, not, ◌||◌, length, if◌then◌else◌, take, ◌∷◌, Option, List, [], ℕ, Bool, ◌++◌, true,
  false, none, some,
}
use revese_server.Base.Int.{ℤ, pos, leb_ℤ}
use revese_server.Streamcoder.Conn.{NetConn}

-- Where one of the two goroutines of cp is: before its Read, before the Write of what it read, with the
-- error of that Read, or through with io.CopyBuffer, its channel closed.
pub data Phase : Type 0 where
  reading : Phase
  writing : List ℕ → Bool → Phase
  ended : Phase

-- `got` is all that was read, and `put` all that a Write has counted.
pub record Copier : Type 0 where
  pub phase : Phase
  pub got : List ℕ
  pub put : List ℕ

abbrev pub new_copier : Copier
new_copier = record { phase = reading; got = []; put = [] }

abbrev pub after_read : List ℕ → Bool → Phase
after_read [] failed = if failed then ended else reading
after_read (b ∷ bytes) failed = writing (b ∷ bytes) failed

abbrev pub after_write : ℕ → List ℕ → Bool → Bool → Phase
after_write n bytes failed write_failed =
    if write_failed || not (n == length bytes) || failed then ended else reading

-- A Read of io.CopyBuffer, with a buffer of `size` bytes.
unfoldable pub fetch : (src : NetConn) → ℕ → src.State → Copier → src.State × Copier
fetch src size s c = elim c.phase [
  | reading ↦
      let (s', bytes, failed) = src.read s size in
      (s', record { phase = after_read bytes failed; got = c.got ++ bytes; put = c.put })
  | writing bytes failed ↦ (s, c)
  | ended ↦ (s, c)
]

-- A Write of io.CopyBuffer.
unfoldable pub deliver : (dst : NetConn) → dst.State → Copier → dst.State × Copier
deliver dst d c = elim c.phase [
  | reading ↦ (d, c)
  | writing bytes failed ↦
      let (d', n, write_failed) = dst.write d bytes in
      (
        d',
        record {
          phase = after_write n bytes failed write_failed;
          got = c.got;
          put = c.put ++ take n bytes;
        },
      )
  | ended ↦ (d, c)
]

abbrev pub is_ended : Phase → Bool
is_ended reading = false
is_ended (writing bytes failed) = false
is_ended ended = true

pub data Side : Type 0 where
  p1 p2 : Side

-- What the goroutines of cp do, and its select with the return of handleClient.
pub data Move : Type 0 where
  fetch_p1 fetch_p2 deliver_p1 deliver_p2 notice : Move

module _ (conn1 conn2 : NetConn) where
  -- `to_p1` copies from p2 to p1. `closes` holds what handleClient has closed, in order.
  pub record Tunnel : Type 0 where
    pub one : conn1.State
    pub two : conn2.State
    pub to_p1 : Copier
    pub to_p2 : Copier
    pub closes : List Side

  unfoldable pub cp : conn1.State → conn2.State → Tunnel
  cp one two = record { one = one; two = two; to_p1 = new_copier; to_p2 = new_copier; closes = [] }

  -- The deferred calls of handleClient, the last one first.
  unfoldable pub close_both : Tunnel → Tunnel
  close_both t = record t {
    one = (conn1.close t.one).0;
    two = (conn2.close t.two).0;
    closes = t.closes ++ (p2 ∷ p1 ∷ []);
  }

  -- One move; one that cannot be made changes nothing.
  unfoldable pub move : ℕ → Tunnel → Move → Tunnel
  move size t fetch_p1 =
      let (one, c) = fetch conn1 size t.one t.to_p2 in record t { one = one; to_p2 = c }
  move size t fetch_p2 =
      let (two, c) = fetch conn2 size t.two t.to_p1 in record t { two = two; to_p1 = c }
  move size t deliver_p1 =
      let (one, c) = deliver conn1 t.one t.to_p1 in record t { one = one; to_p1 = c }
  move size t deliver_p2 =
      let (two, c) = deliver conn2 t.two t.to_p2 in record t { two = two; to_p2 = c }
  move size t notice =
      if length t.closes == 0 && (is_ended t.to_p1.phase || is_ended t.to_p2.phase)
      then close_both t
      else t

  unfoldable pub moves : ℕ → Tunnel → List Move → Tunnel
  moves size t [] = t
  moves size t (m ∷ ms) = moves size (move size t m) ms

  -- What becomes of a client: it is let go, or joined to another connection, or the program panics.
  pub data Handled : Type 0 where
    let_go : conn1.State → Handled
    joined : Tunnel → Handled
    crashed : Handled

  -- handleClient of hub.go on what OpenStream gives. setRWBuffer asserts that p2 is a *net.TCPConn, which
  -- a stream is not.
  unfoldable pub handle_hub_client : ℤ → conn1.State → Option conn2.State → Handled
  handle_hub_client rw_buf one none = let_go (conn1.close one).0
  handle_hub_client rw_buf one (some two) =
      if leb_ℤ rw_buf (pos 0) then joined (cp one two) else crashed

  -- handleClient of client.go on what net.DialTimeout gives, which is a *net.TCPConn.
  unfoldable pub handle_target : ℤ → conn1.State → Option conn2.State → Handled
  handle_target rw_buf one none = let_go (conn1.close one).0
  handle_target rw_buf one (some two) = joined (cp one two)
