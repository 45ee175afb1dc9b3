-- ===== src/Streamcoder/FlowStat.antt =====
-- lib/streamcoder/flowstat.go: a connection that counts its traffic and limits its rate.
pub mod Closing
use revese_server.Base.{
  ℕ, ◌+◌, ◌-◌, ◌%◌, Bool, true, false, not, List, Option, none, some, length, ltb, if◌then◌else◌,
}
use revese_server.Base.Int.{ℤ, pos, leb_ℤ}
use revese_server.Streamcoder.Conn.{NetConn}

-- int64 as bit patterns.
abbrev pub add64 : ℕ → ℕ → ℕ
add64 a b = (a + b) % 18446744073709551616

abbrev pub sub64 : ℕ → ℕ → ℕ
sub64 a b = (a + 18446744073709551616 - b) % 18446744073709551616

abbrev pub lt64 : ℕ → ℕ → Bool
lt64 a b =
    ltb ((a + 9223372036854775808) % 18446744073709551616)
      ((b + 9223372036854775808) % 18446744073709551616)

-- The float64 arithmetic of the source: the bytes that a limit allows in a number of nanoseconds, the
-- nanoseconds to wait for bytes beyond them, and the average of bytes over nanoseconds. A limit is the
-- argument of SetRxSpd or SetTxSpd, in kBytes for a second.
pub record Meter : Type 0 where
  pub allowed : ℤ → ℕ → ℕ
  pub pause : ℤ → ℕ → ℕ
  pub average : ℕ → ℕ → ℕ

-- What the limiter makes of a count: nothing to wait for, with the new rxt and rx0, or the time to wait.
pub data Pace : Type 0 where
  unlimited : Pace
  in_time : ℕ → ℕ → Pace
  too_fast : ℕ → Pace

-- The limiter of Read and of Write: `since` is rxt or txt, `base` rx0 or tx0, `curr` the new count.
-- The clock is monotonic, so that `now` is not before `since`.
unfoldable pub pace : Meter → ℤ → ℕ → ℕ → ℕ → ℕ → Pace
pace meter lim since base now curr =
    let ems = add64 (meter.allowed lim (now - since)) base in
    if leb_ℤ lim (pos 0)
    then unlimited
    else if lt64 ems curr
    then too_fast (meter.pause lim (sub64 curr ems))
    else in_time now curr

module _ (conn : NetConn) (meter : Meter) where
  open conn use {State}

  -- `locked` is the state of dieLock between the calls. TxSPD and RxSPD are left out: what sets them,
  -- calcSpd, is never started. Instants are numbers of nanoseconds.
  pub record FlowStat : Type 0 where
    pub inner : State
    pub tx : ℕ
    pub rx : ℕ
    pub start : ℕ
    pub end : ℕ
    pub die : Bool
    pub locked : Bool
    pub rx_lim : ℤ
    pub rx0 : ℕ
    pub rxt : ℕ
    pub tx_lim : ℤ
    pub tx0 : ℕ
    pub txt : ℕ

  unfoldable pub new_flow_stat : State → ℕ → FlowStat
  new_flow_stat inner now = record {
    inner = inner;
    tx = 0;
    rx = 0;
    start = now;
    end = 0;
    die = false;
    locked = false;
    rx_lim = pos 0;
    rx0 = 0;
    rxt = now;
    tx_lim = pos 0;
    tx0 = 0;
    txt = now;
  }

  -- The limiter's part of Read: the state, and the nanoseconds to wait (or less, if the wrapper is closed).
  unfoldable pub limit_rx : FlowStat → ℕ → FlowStat × ℕ
  limit_rx c now = elim (pace meter c.rx_lim c.rxt c.rx0 now c.rx) [
    | unlimited ↦ (c, 0)
    | in_time t n ↦ (record c { rxt = t; rx0 = n }, 0)
    | too_fast d ↦ (c, d)
  ]

  unfoldable pub limit_tx : FlowStat → ℕ → FlowStat × ℕ
  limit_tx c now = elim (pace meter c.tx_lim c.txt c.tx0 now c.tx) [
    | unlimited ↦ (c, 0)
    | in_time t n ↦ (record c { txt = t; tx0 = n }, 0)
    | too_fast d ↦ (c, d)
  ]

  -- Read: the state, the bytes, whether there was an error, and the wait before it returns; `now` is
  -- the time after the connection's Read.
  unfoldable pub read : FlowStat → ℕ → ℕ → FlowStat × List ℕ × Bool × ℕ
  read c now len =
      let (inner, bytes, failed) = conn.read c.inner len in
      let (c', wait) = limit_rx (record c { inner = inner; rx = add64 c.rx (length bytes) }) now in
      (c', bytes, failed, wait)

  unfoldable pub write : FlowStat → ℕ → List ℕ → FlowStat × ℕ × Bool × ℕ
  write c now bytes =
      let (inner, n, failed) = conn.write c.inner bytes in
      let (c', wait) = limit_tx (record c { inner = inner; tx = add64 c.tx n }) now in
      (c', n, failed, wait)

  -- Close. `none`: it waits for dieLock for ever. The lock is given back only where die was closed
  -- before.
  unfoldable pub close : FlowStat → ℕ → Option (FlowStat × Bool)
  close c now =
      let (inner, failed) = conn.close c.inner in
      if c.locked
      then none
      else if c.die
      then some (c, false)
      else some (record c { inner = inner; die = true; end = now; locked = true }, failed)

  unfoldable pub set_read_deadline : FlowStat → ℕ → FlowStat × Bool
  set_read_deadline c t =
      let (inner, failed) = conn.set_read_deadline c.inner t in (record c { inner = inner }, failed)

  unfoldable pub set_write_deadline : FlowStat → ℕ → FlowStat × Bool
  set_write_deadline c t =
      let (inner, failed) = conn.set_write_deadline c.inner t in
      (record c { inner = inner }, failed)

  -- SetDeadline.
  unfoldable pub set_deadline : FlowStat → ℕ → FlowStat × Bool
  set_deadline c t =
      let (c', failed) = set_read_deadline c t in
      let both = set_write_deadline c' t in if failed then (c', true) else both

  unfoldable pub set_rx_spd : FlowStat → ℕ → ℤ → FlowStat
  set_rx_spd c now spd = record c { rxt = now; rx0 = c.rx; rx_lim = spd }

  unfoldable pub set_tx_spd : FlowStat → ℕ → ℤ → FlowStat
  set_tx_spd c now spd = record c { txt = now; tx0 = c.tx; tx_lim = spd }

  -- Dt, AvgRx and AvgTx.
  unfoldable pub dt : FlowStat → ℕ → ℕ
  dt c now = if c.die then c.end - c.start else now - c.start

  unfoldable pub avg_rx : FlowStat → ℕ → ℕ
  avg_rx c now = meter.average c.rx (dt c now)

  unfoldable pub avg_tx : FlowStat → ℕ → ℕ
  avg_tx c now = meter.average c.tx (dt c now)
