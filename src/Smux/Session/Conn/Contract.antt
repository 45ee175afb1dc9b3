-- ===== src/Smux/Session/Conn/Contract.antt =====
-- Write keeps the contract of io.Writer on a connection that keeps it.
use revese_server.Smux.Session.Conn.{
  broken_pipe, FrameReply, answered, lost, not_taken, send_frames, write, write_wait, WaitChoice,
}
use revese_server.Base.{
  subst, Bool-cases, ◌++◌, ◌<◌, length-append, ◌⊎◌, length, ◌+◌, ◌≤◌, ◌-◌, Option, ◌≡◌, Bool, ℕ,
  List, arith, [], ◌∷◌, suc, true, false, some, inl, inr,
}
use revese_server.Smux.Session.Conn.Cases.{Waited-cases}
use revese_server.Smux.Session.Open.{conn_failed, Error}
use revese_server.Smux.Frame.{Frame, header_size, cmd_psh}
use revese_server.Smux.Stream.{split}
use revese_server.Smux.Stream.Split.{payloads, split_loop-payloads}
use revese_server.Smux.Session.{Session}

-- The answer of sendLoop's writer to a request, from what conn.Write returned for the header and the
-- data: n less the header, but not below 0.
unfoldable pub answer : ℕ → Bool → FrameReply
answer n ok = answered (n - header_size) ok

-- io.Writer for the connection: at most as many bytes as there are, and all of them if there is no
-- error.
abbrev pub KeepsContract : Frame → FrameReply → Type 0
KeepsContract f (answered k ok) =
    (n : ℕ) × (answer n ok ≡ answered k ok)
    × (n ≤ header_size + length f.payload)
    × ((ok ≡ false) ⊎ (n ≡ header_size + length f.payload))
KeepsContract f (lost e) = Unit {0}
KeepsContract f (not_taken e) = Unit {0}

abbrev pub AllKeep : List Frame → List FrameReply → Type 0
AllKeep [] rs = Unit {0}
AllKeep (f ∷ fs) [] = Unit {0}
AllKeep (f ∷ fs) (r ∷ rs) = KeepsContract f r × AllKeep fs rs

answer-count :
    (f : Frame) (k : ℕ) (ok : Bool)
    → KeepsContract f (answered k ok)
    → (k ≤ length f.payload) × ((ok ≡ false) ⊎ (k ≡ length f.payload))
unfolding answer
answer-count f k ok (n, e, hi, h) = ground arith

send_frames-count :
    (s t : Session) (fs : List Frame) (rs : List FrameReply) (n m : ℕ) (e : Option Error)
    → AllKeep fs rs
    → send_frames s fs rs n ≡ some (t, m, e)
    → (m ≤ n + length (payloads fs))
      × (((x : Error) × (e ≡ some x)) ⊎ (m ≡ n + length (payloads fs)))
unfolding send_frames
send_frames-count s t [] rs n m e h q = (ground arith, inr (ground arith))
send_frames-count s t (f ∷ fs) [] n m e h q = absurd (ground arith)
send_frames-count s t (f ∷ fs) (answered k true ∷ rs) n m e (hk, h) q =
    let (lo, hi) = answer-count f k true hk in
    let (bound, done) =
      send_frames-count (record s { sent = s.sent ++ (f ∷ []) }) t fs rs (n + k) m e h q in
    ground (arith, lo, hi, bound, done, length-append f.payload (payloads fs))
send_frames-count s t (f ∷ fs) (answered k false ∷ rs) n m e (hk, h) q =
    let (lo, hi) = answer-count f k false hk in
    (ground (arith, lo, length-append f.payload (payloads fs)), inl (conn_failed, ground arith))
send_frames-count s t (f ∷ fs) (lost x ∷ rs) n m e h q =
    (ground (arith, length-append f.payload (payloads fs)), inl (x, ground arith))
send_frames-count s t (f ∷ fs) (not_taken x ∷ rs) n m e h q =
    (ground (arith, length-append f.payload (payloads fs)), inl (x, ground arith))

counted :
    (s t : Session) (p : ℕ) (bytes : List ℕ) (u : Session) (rs : List FrameReply) (n : ℕ)
    (e : Option Error)
    → 0 < (s.objects p).frame_size
    → AllKeep (split (s.objects p) bytes cmd_psh (s.objects p).id) rs
    → send_frames u (split (s.objects p) bytes cmd_psh (s.objects p).id) rs 0 ≡ some (t, n, e)
    → (n ≤ length bytes) × (((x : Error) × (e ≡ some x)) ⊎ (n ≡ length bytes))
unfolding split
counted s t p bytes u rs n e h k q =
    let whole =
      split_loop-payloads (suc (length bytes)) (s.objects p).frame_size cmd_psh (s.objects p).id
        bytes h (omega arith) in
    let r =
      send_frames-count u t (split (s.objects p) bytes cmd_psh (s.objects p).id) rs 0 n e k q in
    subst (λ l. (n ≤ length l) × (((x : Error) × (e ≡ some x)) ⊎ (n ≡ length l))) whole
      (ground (arith, r))

-- A Write over a connection that keeps the contract of io.Writer keeps it too, whatever the send loop
-- answers and however it is cut short: it never counts more bytes than it was given, and without an
-- error it counts them all.
pub write_contract :
    (s t : Session) (p : ℕ) (bytes : List ℕ) (c : WaitChoice) (rs : List FrameReply) (n : ℕ)
    (e : Option Error)
    → 0 < (s.objects p).frame_size
    → AllKeep (split (s.objects p) bytes cmd_psh (s.objects p).id) rs
    → write s p bytes c rs ≡ some (t, n, e)
    → (n ≤ length bytes) × (((x : Error) × (e ≡ some x)) ⊎ (n ≡ length bytes))
unfolding write
write_contract s t p bytes c rs n e h k q = elim (Bool-cases (s.objects p).die) [
  | inl dead ↦ (ground arith, inl (broken_pipe, ground arith))
  | inr live ↦ elim (Bool-cases (s.objects p).fulflag) [
    | inl full ↦ elim (Waited-cases (write_wait c s p)) [
      | inl (u, w) ↦ counted s t p bytes u rs n e h k (ground arith)
      | inr (inl (x, w)) ↦ (ground arith, inl (x, ground arith))
      | inr (inr w) ↦ absurd (ground arith)
    ]
    | inr free ↦ counted s t p bytes s rs n e h k (ground arith)
  ]
]
