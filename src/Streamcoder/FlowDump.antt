-- ===== src/Streamcoder/FlowDump.antt =====
-- lib/streamcoder/flowdump.go: a connection that logs its traffic.
pub mod Transparent
use revese_server.Base.{◌≤◌, length, ℕ, Bool, List, [], ◌∷◌, ◌++◌}
use revese_server.Streamcoder.Conn.{NetConn}

-- A line of the log: the bytes read, or those to write with the count written, and the error.
pub data Line : Type 0 where
  read_line : List ℕ → Bool → Line
  write_line : List ℕ → ℕ → Bool → Line

module _ (conn : NetConn) where
  open conn use {State}

  -- `log` stands for what log.Println wrote, the oldest line first.
  pub record FlowDump : Type 0 where
    pub inner : State
    pub data_len : ℕ
    pub log : List Line

  unfoldable pub new_flow_dump : State → ℕ → FlowDump
  new_flow_dump inner max_data = record { inner = inner; data_len = max_data; log = [] }

  unfoldable pub read : FlowDump → ℕ → FlowDump × List ℕ × Bool
  read c len =
      let (inner, bytes, failed) = conn.read c.inner len in
      (record c { inner = inner; log = c.log ++ (read_line bytes failed ∷ []) }, bytes, failed)

  unfoldable pub write : FlowDump → List ℕ → FlowDump × ℕ × Bool
  write c bytes =
      let (inner, n, failed) = conn.write c.inner bytes in
      (record c { inner = inner; log = c.log ++ (write_line bytes n failed ∷ []) }, n, failed)

  unfoldable pub close : FlowDump → FlowDump × Bool
  close c = let (inner, failed) = conn.close c.inner in (record c { inner = inner }, failed)

  unfoldable pub set_read_deadline : FlowDump → ℕ → FlowDump × Bool
  set_read_deadline c t =
      let (inner, failed) = conn.set_read_deadline c.inner t in (record c { inner = inner }, failed)

  unfoldable pub set_write_deadline : FlowDump → ℕ → FlowDump × Bool
  set_write_deadline c t =
      let (inner, failed) = conn.set_write_deadline c.inner t in
      (record c { inner = inner }, failed)

  pub read_bound : (c : FlowDump) (len : ℕ) → length (read c len).1 ≤ len
  unfolding read
  read_bound c len = conn.read_bound c.inner len

  pub write_bound : (c : FlowDump) (bytes : List ℕ) → (write c bytes).1 ≤ length bytes
  unfolding write
  write_bound c bytes = conn.write_bound c.inner bytes

  -- The wrapper is a connection again.
  abbrev pub dump_conn : NetConn
  dump_conn = record {
    State = FlowDump;
    read = read;
    write = write;
    close = close;
    set_read_deadline = set_read_deadline;
    set_write_deadline = set_write_deadline;
    read_bound = read_bound;
    write_bound = write_bound;
  }
