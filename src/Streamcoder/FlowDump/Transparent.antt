-- ===== src/Streamcoder/FlowDump/Transparent.antt =====
-- The logging wrapper changes nothing but the log.
use revese_server.Base.{append-nil, append_assoc, sym}
use revese_server.Base.{◌++◌, ◌≡◌, List, refl, arith, [], ◌∷◌}
use revese_server.Streamcoder.Conn.{
  NetConn, Call, reads, writes, closes, delays, Answer, got, put, done, call, calls, set_deadline,
}
use revese_server.Streamcoder.FlowDump.{
  Line, read_line, write_line, FlowDump, dump_conn, read, write, close, set_read_deadline,
  set_write_deadline,
}

-- The lines that calls with these answers leave.
unfoldable pub lines : List Call → List Answer → List Line
lines [] answers = []
lines (k ∷ ks) [] = []
lines (reads len ∷ ks) (got bytes failed ∷ answers) = read_line bytes failed ∷ lines ks answers
lines (writes bytes ∷ ks) (put n failed ∷ answers) = write_line bytes n failed ∷ lines ks answers
lines (k ∷ ks) (a ∷ answers) = lines ks answers

lines-cons :
    (k : Call) (ks : List Call) (a : Answer) (answers : List Answer)
    → lines (k ∷ ks) (a ∷ answers) ≡ lines (k ∷ []) (a ∷ []) ++ lines ks answers
unfolding lines
lines-cons (reads len) ks (got bytes failed) answers = refl
lines-cons (reads len) ks (put n failed) answers = refl
lines-cons (reads len) ks (done failed) answers = refl
lines-cons (writes bytes) ks (got bytes' failed) answers = refl
lines-cons (writes bytes) ks (put n failed) answers = refl
lines-cons (writes bytes) ks (done failed) answers = refl
lines-cons closes ks a answers = refl
lines-cons (delays t) ks a answers = refl

module _ (conn : NetConn) where
  call_same :
      (c : FlowDump conn) (k : Call)
      → let (c', a) = call (dump_conn conn) c k in
        (c'.inner ≡ (call conn c.inner k).0)
        × (a ≡ (call conn c.inner k).1)
        × (c'.log ≡ c.log ++ lines (k ∷ []) (a ∷ []))
  unfolding call lines set_deadline read write close set_read_deadline set_write_deadline
  call_same c (reads len) = (refl, refl, refl)
  call_same c (writes bytes) = (refl, refl, refl)
  call_same c closes = (refl, refl, sym (append-nil c.log))
  call_same c (delays t) = ground (arith, append-nil c.log)

  -- Whoever calls a connection through FlowDump gets the answers that the connection gives, it is left in
  -- the state that it would be in, and the log has a line for each Read and Write, in order, with its
  -- bytes, its count and its error.
  pub dump_transparent :
      (c : FlowDump conn) (ks : List Call)
      → let (c', answers) = calls (dump_conn conn) c ks in
        (c'.inner ≡ (calls conn c.inner ks).0)
        × (answers ≡ (calls conn c.inner ks).1)
        × (c'.log ≡ c.log ++ lines ks answers)
  unfolding calls lines
  dump_transparent c [] = (refl, refl, sym (append-nil c.log))
  dump_transparent c (k ∷ ks) =
      let step = call_same c k in
      let rest = dump_transparent (call (dump_conn conn) c k).0 ks in
      ground (
        arith,
        step,
        rest,
        lines-cons k ks (call (dump_conn conn) c k).1
            (calls (dump_conn conn) (call (dump_conn conn) c k).0 ks).1,
        append_assoc c.log (lines (k ∷ []) ((call (dump_conn conn) c k).1 ∷ []))
            (lines ks (calls (dump_conn conn) (call (dump_conn conn) c k).0 ks).1),
      )
