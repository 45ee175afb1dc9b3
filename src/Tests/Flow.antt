-- ===== src/Tests/Flow.antt =====
-- Runs of lib/streamcoder/flowstat.go and flowdump.go over a small connection.
use revese_server.Base.{
  length, take, drop, ℕ, ◌+◌, ◌-◌, ◌≤◌, ◌≡◌, List, [], ◌∷◌, refl, arith, zero, suc, false, some,
  none, Bool,
}
use revese_server.Streamcoder.Conn.{NetConn}
use revese_server.Streamcoder.FlowStat.{Meter, FlowStat, new_flow_stat, close, dt}
use revese_server.Streamcoder.FlowStat.Closing.{close_once}

pub taken_bound : (n : ℕ) (bytes : List ℕ) → length (take n bytes) ≤ n
taken_bound zero bytes = omega arith
taken_bound (suc n) [] = omega arith
taken_bound (suc n) (b ∷ bytes) = omega (arith, taken_bound n bytes)

-- The state is what can be read; what is written is gone.
abbrev pub small_conn : NetConn
small_conn = record {
  State = List ℕ;
  read = λ s len. (drop len s, take len s, false);
  write = λ s bytes. (s, length bytes, false);
  close = λ s. ([], false);
  set_read_deadline = λ s t. (s, false);
  set_write_deadline = λ s t. (s, false);
  read_bound = λ s len. taken_bound len s;
  write_bound = λ s bytes. omega arith;
}

-- Two bytes for each nanosecond; a nanosecond of wait for each byte too many.
abbrev small_meter : Meter
small_meter = record { allowed = λ lim d. d + d; pause = λ lim over. over; average = λ n d. n }

abbrev fresh_stat : FlowStat small_conn small_meter
fresh_stat = new_flow_stat small_conn small_meter (1 ∷ 2 ∷ 3 ∷ []) 5

unlocked : fresh_stat.locked ≡ false
unfolding new_flow_stat
unlocked = refl

alive : fresh_stat.die ≡ false
unfolding new_flow_stat
alive = refl

close_once_example :
    (c' : FlowStat small_conn small_meter) × (failed : Bool) × (close small_conn small_meter
        fresh_stat 8
      ≡ some (c', failed))
    × (c'.inner ≡ (small_conn.close fresh_stat.inner).0)
    × (dt small_conn small_meter c' 20 ≡ 8 - fresh_stat.start)
    × (close small_conn small_meter c' 20 ≡ none)
close_once_example = close_once small_conn small_meter fresh_stat 8 20 unlocked alive
