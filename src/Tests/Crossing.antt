-- ===== src/Tests/Crossing.antt =====
-- A run of cp of hub.go and client.go between two connections that keep what is written to them.
use revese_server.Base.{
  ℕ, ◌≡◌, ◌++◌, ◌||◌, List, [], ◌∷◌, All, false, refl, sym, arith, length, ltb, take, drop,
  take-append-drop, if◌then◌else◌,
}
use revese_server.Streamcoder.Conn.{NetConn}
use revese_server.Programs.Copy.{
  is_ended, p1, p2, Move, fetch_p1, fetch_p2, deliver_p1, deliver_p2, notice, cp, move, moves,
}
use revese_server.Programs.Copy.Crossing.{Carrying, at_hand, is_notice, bytes_cross}
use revese_server.Tests.Flow.{taken_bound}

-- What can be read, and what was written.
abbrev log_conn : NetConn
log_conn = record {
  State = List ℕ × List ℕ;
  read = λ s len. ((drop len s.0, s.1), take len s.0, ltb (length s.0) len);
  write = λ s bytes. ((s.0, s.1 ++ bytes), length bytes, false);
  close = λ s. (s, false);
  set_read_deadline = λ s t. (s, false);
  set_write_deadline = λ s t. (s, false);
  read_bound = λ s len. taken_bound len s.0;
  write_bound = λ s bytes. omega arith;
}

abbrev log_conn-Carrying : Carrying log_conn
log_conn-Carrying = record {
  unread = λ s. s.0;
  written = λ s. s.1;
  read_unread = λ s len. sym (take-append-drop len s.0);
  read_written = λ s len. refl;
  write_unread = λ s bytes. refl;
  write_written = λ s bytes. refl;
}

abbrev user : List ℕ × List ℕ
user = (1 ∷ 2 ∷ 3 ∷ [], [])

abbrev target : List ℕ × List ℕ
target = (9 ∷ [], [])

abbrev some_moves : List Move
some_moves = fetch_p1 ∷ fetch_p2 ∷ deliver_p2 ∷ fetch_p1 ∷ deliver_p1 ∷ []

before_return : All (λ m. is_notice m ≡ false) some_moves
before_return = (refl, (refl, (refl, (refl, (refl, tt)))))

bytes_cross_example :
    ((moves log_conn log_conn 2 (cp log_conn log_conn user target) some_moves).two.1
        ++ (at_hand
              (moves log_conn log_conn 2 (cp log_conn log_conn user target) some_moves).to_p2.phase
            ++ (moves log_conn log_conn 2 (cp log_conn log_conn user target) some_moves).one.0)
      ≡ 1 ∷ 2 ∷ 3 ∷ [])
    × ((moves log_conn log_conn 2 (cp log_conn log_conn user target) some_moves).one.1
          ++ (at_hand
                (moves log_conn log_conn 2
                  (cp log_conn log_conn user target)
                  some_moves).to_p1.phase
              ++ (moves log_conn log_conn 2 (cp log_conn log_conn user target) some_moves).two.0)
        ≡ 9 ∷ [])
    × ((move log_conn log_conn 2
          (moves log_conn log_conn 2 (cp log_conn log_conn user target) some_moves)
          notice).closes
        ≡ (if is_ended
                (moves log_conn log_conn 2
                  (cp log_conn log_conn user target)
                  some_moves).to_p1.phase
              || is_ended
                  (moves log_conn log_conn 2
                    (cp log_conn log_conn user target)
                    some_moves).to_p2.phase
            then p2 ∷ p1 ∷ []
            else []))
bytes_cross_example =
    bytes_cross log_conn log_conn log_conn-Carrying log_conn-Carrying 2 user target some_moves refl
      refl before_return
