-- ===== src/Streamcoder/FlowObf/Layer.antt =====
-- The connection of lib/streamcoder/flowobf.go: a FlowObf over the connection that it was given. Write,
-- Close and the deadlines; what Read makes of the bytes that come is in FlowObf.
use revese_server.Base.{
  ℕ, ◌+◌, ◌≡◌, Bool, true, false, not, if◌then◌else◌, List, [], ◌∷◌, Option, none, some, refl,
  arith, Bool-cases, inl, inr,
}
use revese_server.Streamcoder.Conn.{NetConn, Call, writes, call, calls}
use revese_server.Streamcoder.FlowObf.{FlowObf, split, write_frames}

module _ (conn : NetConn) where
  -- The field In of FlowObf is `inner`.
  pub record ObfConn : Type 0 where
    pub inner : conn.State
    pub obf : FlowObf

  unfoldable pub close : ObfConn → ObfConn × Bool
  close c = let (inner, failed) = conn.close c.inner in (record c { inner = inner }, failed)

  unfoldable pub set_read_deadline : ObfConn → ℕ → ObfConn × Bool
  set_read_deadline c t =
      let (inner, failed) = conn.set_read_deadline c.inner t in (record c { inner = inner }, failed)

  unfoldable pub set_write_deadline : ObfConn → ℕ → ObfConn × Bool
  set_write_deadline c t =
      let (inner, failed) = conn.set_write_deadline c.inner t in
      (record c { inner = inner }, failed)

  -- SetDeadline: that for writes is set only if that for reads could be.
  unfoldable pub set_deadline : ObfConn → ℕ → ObfConn × Bool
  set_deadline c t =
      let (c', failed) = set_read_deadline c t in
      let both = set_write_deadline c' t in if failed then (c', true) else both

  -- The loop of Write: it stops at the first error of the connection.
  unfoldable pub write_out : conn.State → List (List ℕ × ℕ) → ℕ → conn.State × ℕ × Bool
  write_out s [] n = (s, n, false)
  write_out s ((f, rl) ∷ fs) n =
      let (s', k, failed) = conn.write s f in
      let rest = write_out s' fs (n + rl) in if failed then (s', n + rl, true) else rest

  -- Write, with the noise that is drawn for its frames. `none` is a panic.
  unfoldable pub write : ObfConn → List (List ℕ) → List ℕ → Option (ObfConn × ℕ × Bool)
  write c noises bytes = elim (split c.obf noises bytes) [
    | none ↦ none
    | some fs ↦
        let (inner, n, failed) = write_out c.inner fs 0 in
        some (record c { inner = inner }, n, failed)
  ]

  -- What the connection says of the frames, if all were written to it.
  unfoldable pub outcomes : conn.State → List (List ℕ × ℕ) → List Bool
  outcomes s [] = []
  outcomes s ((f, rl) ∷ fs) = let (s', k, failed) = conn.write s f in not failed ∷ outcomes s' fs

  -- The calls of the connection for frames of which the last may fail.
  unfoldable pub frame_calls : conn.State → List (List ℕ × ℕ) → List Call
  frame_calls s [] = []
  frame_calls s ((f, rl) ∷ fs) =
      let (s', k, failed) = conn.write s f in
      let rest = frame_calls s' fs in writes f ∷ (if failed then [] else rest)

  -- The loop of Write leaves the connection as these calls do, and counts and fails as the loop that only
  -- knows their outcomes.
  pub write_out_lem :
      (s : conn.State) (fs : List (List ℕ × ℕ)) (n : ℕ)
      → ((write_out s fs n).0 ≡ (calls conn s (frame_calls s fs)).0)
        × ((write_out s fs n).1 ≡ (write_frames fs (outcomes s fs) n).1)
        × ((write_out s fs n).2 ≡ (write_frames fs (outcomes s fs) n).2)
  unfolding write_out calls call frame_calls outcomes write_frames
  write_out_lem s [] n = (refl, refl, refl)
  write_out_lem s ((f, rl) ∷ fs) n =
      let rest = write_out_lem (conn.write s f).0 fs (n + rl) in
      elim (Bool-cases (conn.write s f).2) [
        | inl e ↦ (ground (arith, e), ground (arith, e), ground (arith, e))
        | inr e ↦ (ground (arith, e, rest), ground (arith, e, rest), ground (arith, e, rest))
      ]
