-- ===== src/Streamcoder/FlowStat/Closing.antt =====
-- Close of FlowStat.
use revese_server.Base.{◌-◌, Bool, ◌≡◌, ℕ, refl, arith, some, none, true, false}
use revese_server.Streamcoder.Conn.{NetConn}
use revese_server.Streamcoder.FlowStat.{Meter, FlowStat, close, dt}

module _ (conn : NetConn) (meter : Meter) where
  -- The first Close closes the connection and stops the clock of Dt. It never gives dieLock back: every
  -- later Close waits for ever.
  pub close_once :
      (c : FlowStat conn meter) (now later : ℕ)
      → c.locked ≡ false
      → c.die ≡ false
      → (c' : FlowStat conn meter) × (failed : Bool) × (close conn meter c now ≡ some (c', failed))
        × (c'.inner ≡ (conn.close c.inner).0)
        × (dt conn meter c' later ≡ now - c.start)
        × (close conn meter c' later ≡ none)
  unfolding close dt
  close_once c now later l d = (
    record c { inner = (conn.close c.inner).0; die = true; end = now; locked = true },
    (conn.close c.inner).1,
    ground arith,
    refl,
    refl,
    refl,
  )
