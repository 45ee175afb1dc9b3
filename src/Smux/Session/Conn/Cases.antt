-- ===== src/Smux/Session/Conn/Cases.antt =====
-- The ways in which a Write returns, as a rule for properties of the state that it leaves.
use revese_server.Base.{
  ℕ, ◌+◌, ◌≡◌, refl, ◌⊎◌, inl, inr, true, false, List, [], ◌∷◌, ◌++◌, Option, some, arith,
  Bool-cases,
}
use revese_server.Smux.Frame.{Frame, cmd_psh}
use revese_server.Smux.Stream.{split}
use revese_server.Smux.Session.{Session}
use revese_server.Smux.Session.Open.{Error}
use revese_server.Smux.Session.Conn.{
  WaitChoice, Waited, woken, wait_error, still_waits, write_wait, FrameReply, answered, lost,
  not_taken, send_frames, write,
}

pub Waited-cases :
    (w : Waited)
    → ((t : Session) × (w ≡ woken t)) ⊎ (((e : Error) × (w ≡ wait_error e)) ⊎ (w ≡ still_waits))
Waited-cases (woken t) = inl (t, refl)
Waited-cases (wait_error e) = inr (inl (e, refl))
Waited-cases still_waits = inr (inr refl)

-- The loop of Write changes nothing but what was handed to the send loop.
pub send_frames-sent :
    (s : Session) (fs : List Frame) (rs : List FrameReply) (n : ℕ) {t : Session} {m : ℕ}
    {e : Option Error}
    → send_frames s fs rs n ≡ some (t, m, e)
    → t ≡ record s { sent = t.sent }
unfolding send_frames
send_frames-sent s [] rs n q = ground arith
send_frames-sent s (f ∷ fs) [] n q = absurd (ground arith)
send_frames-sent s (f ∷ fs) (answered k true ∷ rs) n q =
    send_frames-sent (record s { sent = s.sent ++ (f ∷ []) }) fs rs (n + k) q
send_frames-sent s (f ∷ fs) (answered k false ∷ rs) n q = ground arith
send_frames-sent s (f ∷ fs) (lost x ∷ rs) n q = ground arith
send_frames-sent s (f ∷ fs) (not_taken x ∷ rs) n q = ground arith

-- Write leaves the state as it was, or, perhaps woken from a wait, hands frames over.
pub write_cases :
    (s : Session) (p : ℕ) (bytes : List ℕ) (c : WaitChoice) (rs : List FrameReply) {t : Session}
    {m : ℕ} {e : Option Error}
    → write s p bytes c rs ≡ some (t, m, e)
    → (t ≡ s)
      ⊎ ((u : Session) × ((u ≡ s) ⊎ (write_wait c s p ≡ woken u))
          × (t ≡ record u { sent = t.sent }))
unfolding write
write_cases s p bytes c rs {t} {m} {e} q = elim (Bool-cases (s.objects p).die) [
  | inl dead ↦ inl (ground arith)
  | inr live ↦ elim (Bool-cases (s.objects p).fulflag) [
    | inl full ↦ elim (Waited-cases (write_wait c s p)) [
      | inl (u, w) ↦ inr (u, inr w, send_frames-sent u frames rs 0 {m = m} {e = e} (ground arith))
      | inr (inl (x, w)) ↦ inl (ground arith)
      | inr (inr w) ↦ absurd (ground arith)
    ]
    | inr free ↦ inr (s, inl refl, send_frames-sent s frames rs 0 {m = m} {e = e} (ground arith))
  ]
]
  where
    frames : List Frame
    frames = split (s.objects p) bytes cmd_psh (s.objects p).id
