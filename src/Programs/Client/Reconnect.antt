-- ===== src/Programs/Client/Reconnect.antt =====
-- When the client connects again.
use revese_server.Base.{Bool-cases, arith, ◌⊎◌, List, ℕ, refl, inl, inr, true, [], ◌∷◌, none, ◌≡◌}
use revese_server.Programs.Client.{after_accept, serves, waits, reconnects, accept_round}
use revese_server.Smux.Session.{Session}
use revese_server.Smux.Session.Open.{
  AcceptChoice, take_stream, take_deadline, take_die, accept_stream, accept_from,
}

after_take :
    (s : Session) (ps : List ℕ)
    → ((p : ℕ) × (after_accept (accept_from s ps).0 (accept_from s ps).1 ≡ serves p))
      ⊎ (after_accept (accept_from s ps).0 (accept_from s ps).1 ≡ waits)
unfolding accept_from
after_take s [] = inr refl
after_take s (p ∷ ps) = inl (p, refl)

-- The client sets no deadline on its session. Then a call of AcceptStream gives it a stream, waits, or
-- makes it connect again because the session is closed: the loop never calls again after an error.
pub round_lem :
    (choice : AcceptChoice) (s : Session)
    → s.deadline ≡ none
    → ((p : ℕ) × ((accept_round choice s).1 ≡ serves p))
      ⊎ (((accept_round choice s).1 ≡ waits)
          ⊎ (((accept_round choice s).1 ≡ reconnects) × (s.die ≡ true)))
unfolding accept_round accept_stream accept_from
round_lem take_stream s h = elim (after_take s s.ch_accepts) [ inl e ↦ inl e | inr e ↦ inr (inl e) ]
round_lem take_deadline s h = ground arith
round_lem take_die s h = elim (Bool-cases s.die) [
  | inl e ↦ inr (inr (ground arith, e))
  | inr e ↦ inr (inl (ground arith))
]
