-- ===== src/Smux/Session/Conn/Writer.antt =====
-- The writing goroutine of sendLoop in lib/smux/session.go, and a Write that it serves.
use revese_server.Base.{
  IsByte, ◌+◌, ◌<◌, arith, ◌-◌, ◌++◌, ◌⊎◌, ◌≡◌, ◌≤◌, All, length, ℕ, [], ◌∷◌, Option, Bool, List,
  refl, true, false, none, some, not,
}
use revese_server.Smux.Frame.{Frame, frame_bytes, header_bytes, header_size, cmd_psh}
use revese_server.Smux.Frame.RoundTrip.{frame_bytes-eq}
use revese_server.Smux.Stream.{split}
use revese_server.Smux.Stream.Split.{IsPiece, split_lem}
use revese_server.Smux.Session.{Session}
use revese_server.Smux.Session.Open.{Error, conn_failed}
use revese_server.Smux.Session.Conn.{
  FrameReply, answered, lost, not_taken, WaitChoice, write, send_frames,
}
use revese_server.Smux.Session.Conn.Contract.{answer, KeepsContract, AllKeep, write_contract}
use revese_server.Streamcoder.Conn.{NetConn}

none_left : (fs : List Frame) → AllKeep fs []
none_left [] = tt
none_left (f ∷ fs) = tt

module _ (conn : NetConn) where
  -- A request: the frame is encoded and written, and the answer goes to its channel. `none` is the panic
  -- of a frame that is longer than the buffer.
  unfoldable pub write_request : conn.State → Frame → Option (conn.State × FrameReply)
  write_request inner f = elim (frame_bytes f) [
    | none ↦ none
    | some b ↦ let (inner', n, failed) = conn.write inner b in some (inner', answer n (not failed))
  ]

  abbrev is_ok : FrameReply → Bool
  is_ok (answered k ok) = ok
  is_ok (lost e) = false
  is_ok (not_taken e) = false

  -- The frames of one Write, which hands over the next frame after an answer without an error.
  unfoldable pub write_requests : conn.State → List Frame → Option (conn.State × List FrameReply)
  write_requests inner [] = some (inner, [])
  write_requests inner (f ∷ fs) = elim (write_request inner f) [
    | none ↦ none
    | some (inner', r) ↦ elim (is_ok r) [
      | false ↦ some (inner', r ∷ [])
      | true ↦ elim (write_requests inner' fs) [
        | none ↦ none
        | some (inner'', rs) ↦ some (inner'', r ∷ rs)
      ]
    ]
  ]

  -- io.Writer: a Write that counts fewer bytes than it was given has an error.
  abbrev pub IsWriter : Type 0
  IsWriter =
      (inner : conn.State) (b : List ℕ)
      → ((conn.write inner b).2 ≡ true) ⊎ ((conn.write inner b).1 ≡ length b)

  request_served :
      (inner : conn.State) (f : Frame)
      → IsWriter
      → length f.payload ≤ 65536
      → (inner' : conn.State) × (k : ℕ) × (ok : Bool) × (write_request inner f
          ≡ some (inner', answered k ok))
        × KeepsContract f (answered k ok)
  unfolding write_request answer
  request_served inner f w h =
      let b = header_bytes f ++ f.payload in
      let (inner', n, failed) = conn.write inner b in
      (
        inner',
        n - header_size,
        not failed,
        ground (arith, frame_bytes-eq f h),
        (n, refl, omega (arith, conn.write_bound inner b), ground (arith, w inner b)),
      )

  abbrev Short : Frame → Type 0
  Short f = length f.payload ≤ 65536

  -- The answers are there, keep the contract, and let Write return.
  abbrev Served : conn.State → List Frame → Type 0
  Served inner fs =
      (inner' : conn.State) × (rs : List FrameReply) × (write_requests inner fs ≡ some (inner', rs))
      × AllKeep fs rs
      × ((s : Session) (n : ℕ)
          → (t : Session) × (m : ℕ) × (e : Option Error) × (send_frames s fs rs n ≡ some (t, m, e)))

  step-Served :
      (inner inner' : conn.State) (f : Frame) (fs : List Frame) (k : ℕ) (ok : Bool)
      → write_request inner f ≡ some (inner', answered k ok)
      → KeepsContract f (answered k ok)
      → Served inner' fs
      → Served inner (f ∷ fs)
  unfolding write_requests send_frames
  step-Served inner inner' f fs k true e kept (last, rs, es, ks, sends) = (
    last,
    answered k true ∷ rs,
    ground (arith, e, es),
    (kept, ks),
    λ s n. sends (record s { sent = s.sent ++ (f ∷ []) }) (n + k),
  )
  step-Served inner inner' f fs k false e kept rest = (
    inner',
    answered k false ∷ [],
    ground (arith, e),
    (kept, none_left fs),
    λ s n. (record s { sent = s.sent ++ (f ∷ []) }, n + k, some conn_failed, refl),
  )

  requests-Served :
      (inner : conn.State) (fs : List Frame) → IsWriter → All Short fs → Served inner fs
  unfolding write_requests send_frames
  requests-Served inner [] w h = (inner, [], refl, tt, λ s n. (s, n, none, refl))
  requests-Served inner (f ∷ fs) w (h, hs) =
      let (inner', k, ok, e, kept) = request_served inner f w h in
      step-Served inner inner' f fs k ok e kept (requests-Served inner' fs w hs)

  pieces-Short : (n c i : ℕ) (fs : List Frame) → n ≤ 65536 → All (IsPiece n c i) fs → All Short fs
  pieces-Short n c i [] h a = tt
  pieces-Short n c i (f ∷ fs) h (a, as') = (omega (arith, a.high), pieces-Short n c i fs h as')

  -- A Write of bytes on a stream that is open and not paused, served by the send loop over a connection
  -- that keeps the contract of io.Writer, with frames of at most 65536 bytes: the send loop answers without
  -- a panic, the Write returns, it never counts more bytes than it was given, and without an error it counts them
  -- all.
  pub write_served :
      (inner : conn.State) (s : Session) (p : ℕ) (bytes : List ℕ) (c : WaitChoice)
      → IsWriter
      → 0 < (s.objects p).frame_size
      → (s.objects p).frame_size ≤ 65536
      → All IsByte bytes
      → (s.objects p).die ≡ false
      → (s.objects p).fulflag ≡ false
      → (inner' : conn.State) × (rs : List FrameReply) × (t : Session) × (n : ℕ) × (e : Option
          Error)
        × (write_requests inner (split (s.objects p) bytes cmd_psh (s.objects p).id)
            ≡ some (inner', rs))
        × (write s p bytes c rs ≡ some (t, n, e))
        × (n ≤ length bytes)
        × (((x : Error) × (e ≡ some x)) ⊎ (n ≡ length bytes))
  unfolding write
  write_served inner s p bytes c w lo hi hb live free =
      let frames = split (s.objects p) bytes cmd_psh (s.objects p).id in
      let (whole, pieces) = split_lem (s.objects p) bytes cmd_psh (s.objects p).id lo hb in
      let (inner', rs, es, ks, sends) =
        requests-Served inner frames w
          (pieces-Short (s.objects p).frame_size cmd_psh (s.objects p).id frames hi pieces) in
      let (t, n, e, q) = sends s 0 in
      let written : write s p bytes c rs ≡ some (t, n, e) = ground (arith, live, free, q) in
      let (bound, all_counted) = write_contract s t p bytes c rs n e lo ks written in
      (inner', rs, t, n, e, es, written, bound, all_counted)
