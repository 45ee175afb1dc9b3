-- ===== src/Smux/Session/Sends/Writing.antt =====
-- What Write and WriteCustomCMD send.
use revese_server.Base.{
  if-both, ℕ, ◌+◌, ◌<◌, ◌≡◌, ◌++◌, true, false, List, [], ◌∷◌, Option, some, refl, subst, arith,
  inl, inr, Bool-cases, All, All-append, IsByte, length,
}
use revese_server.Smux.Frame.{Frame, Sendable, new_frame, cmd_psh}
use revese_server.Smux.Stream.{split}
use revese_server.Smux.Stream.Split.{IsPiece, split_lem}
use revese_server.Smux.Session.{Session, Env, put_stream, write_frame, write_custom_cmd}
use revese_server.Smux.Session.Open.{Error}
use revese_server.Smux.Session.Conn.{
  WaitChoice, woken, FrameReply, answered, lost, not_taken, write_wait, write, send_frames,
}
use revese_server.Smux.Session.Conn.Cases.{Waited-cases}
use revese_server.Smux.Session.Sends.{Fit, Keeps-Shaped, write_frame-Fit, put-Fit}
use revese_server.Smux.Session.Delivery.Wire.{piece-IsFrame}

pub write_wait-Fit :
    (c : WaitChoice) (s : Session) (p : ℕ) (t : Session)
    → write_wait c s p ≡ woken t
    → Fit s
    → Fit t
unfolding write_wait
write_wait-Fit WaitChoice.take_event s p t q h =
    subst Fit {x = put_stream s p (record (s.objects p) { bucket_notify = false })}
      (ground (arith, q)) (put-Fit s p (record (s.objects p) { bucket_notify = false }) refl refl h)
write_wait-Fit WaitChoice.take_deadline s p t q h = absurd (ground (arith, q))
write_wait-Fit WaitChoice.take_die s p t q h = absurd (ground (arith, q))

handed-Fit :
    (s : Session) (f : Frame) → Sendable f → Fit s → Fit (record s { sent = s.sent ++ (f ∷ []) })
handed-Fit s f g h = record {
  shaped = Keeps-Shaped {s = s} (ground arith) h.shaped;
  sent = All-append Sendable s.sent (f ∷ []) h.sent (g, tt);
}

-- Write.
send_frames-Fit :
    (s : Session) (fs : List Frame) (rs : List FrameReply) (n : ℕ) (t : Session) (m : ℕ)
    (e : Option Error)
    → send_frames s fs rs n ≡ some (t, m, e)
    → All Sendable fs
    → Fit s
    → Fit t
unfolding send_frames
send_frames-Fit s [] rs n t m e q g h = subst Fit {x = s} (ground (arith, q)) h
send_frames-Fit s (f ∷ fs) [] n t m e q g h = absurd (ground (arith, q))
send_frames-Fit s (f ∷ fs) (answered k true ∷ rs) n t m e q (g, gs) h =
    send_frames-Fit (record s { sent = s.sent ++ (f ∷ []) }) fs rs (n + k) t m e q gs
      (handed-Fit s f g h)
send_frames-Fit s (f ∷ fs) (answered k false ∷ rs) n t m e q (g, gs) h =
    subst Fit {x = record s { sent = s.sent ++ (f ∷ []) }} (ground (arith, q)) (handed-Fit s f g h)
send_frames-Fit s (f ∷ fs) (lost x ∷ rs) n t m e q (g, gs) h =
    subst Fit {x = record s { sent = s.sent ++ (f ∷ []) }} (ground (arith, q)) (handed-Fit s f g h)
send_frames-Fit s (f ∷ fs) (not_taken x ∷ rs) n t m e q (g, gs) h =
    subst Fit {x = s} (ground (arith, q)) h

pieces-Sendable :
    (n sid : ℕ) (fs : List Frame)
    → sid < 4294967296
    → n < 65528
    → All (IsPiece n cmd_psh sid) fs
    → All Sendable fs
pieces-Sendable n sid [] hs hn i = tt
pieces-Sendable n sid (f ∷ fs) hs hn (i, is) = (
  record {
    ver = i.ver;
    cmd = omega (arith, i.cmd);
    words = piece-IsFrame n sid f hs i;
    short = omega (arith, i.high, hn);
  },
  pieces-Sendable n sid fs hs hn is,
)

-- The frames of a Write.
written-Sendable :
    (s : Session) (p : ℕ) (bytes : List ℕ)
    → p < s.next_ptr
    → All IsByte bytes
    → Fit s
    → All Sendable (split (s.objects p) bytes cmd_psh (s.objects p).id)
written-Sendable s p bytes b bs h =
    let st = s.objects p in
    pieces-Sendable st.frame_size st.id (split st bytes cmd_psh st.id) (h.shaped.ids p)
      (h.shaped.sizes p) (split_lem st bytes cmd_psh st.id (h.shaped.cut p b) bs).1

pub write-Fit :
    (s : Session) (p : ℕ) (bytes : List ℕ) (c : WaitChoice) (rs : List FrameReply) (t : Session)
    (m : ℕ) (e : Option Error)
    → p < s.next_ptr
    → All IsByte bytes
    → write s p bytes c rs ≡ some (t, m, e)
    → Fit s
    → Fit t
unfolding write
write-Fit s p bytes c rs t m e b bs q h =
    let st = s.objects p in
    let frames = split st bytes cmd_psh st.id in
    let good : All Sendable frames = written-Sendable s p bytes b bs h in
    elim (Bool-cases st.die) [
      | inl dead ↦ subst Fit {x = s} (ground (arith, dead, q)) h
      | inr live ↦ elim (Bool-cases st.fulflag) [
        | inl full ↦ elim (Waited-cases (write_wait c s p)) [
          | inl (u, w) ↦
              send_frames-Fit u frames rs 0 t m e (ground (arith, live, full, w, q)) good
                (write_wait-Fit c s p u w h)
          | inr (inl (x, w)) ↦ subst Fit {x = s} (ground (arith, live, full, w, q)) h
          | inr (inr w) ↦ absurd (ground (arith, live, full, w, q))
        ]
        | inr free ↦ send_frames-Fit s frames rs 0 t m e (ground (arith, live, free, q)) good h
      ]
    ]

-- One frame of a Write.
among :
    (before : List Frame) (f : Frame) (after : List Frame)
    → All Sendable (before ++ (f ∷ after))
    → Sendable f
among [] f after (g, gs) = g
among (e ∷ before) f after (g, gs) = among before f after gs

pub hand-Fit :
    (s : Session) (p : ℕ) (bytes : List ℕ) (before : List Frame) (f : Frame) (after : List Frame)
    → p < s.next_ptr
    → All IsByte bytes
    → split (s.objects p) bytes cmd_psh (s.objects p).id ≡ before ++ (f ∷ after)
    → Fit s
    → Fit (record s { sent = s.sent ++ (f ∷ []) })
hand-Fit s p bytes before f after b bs q h =
    handed-Fit s f
      (among before f after (subst (All Sendable) q (written-Sendable s p bytes b bs h))) h

-- WriteCustomCMD, with a command of the protocol.
pub write_custom_cmd-Fit :
    (env : Env) (s : Session) (cmd : ℕ) (bytes : List ℕ)
    → cmd < 7
    → length bytes < 65528
    → All IsByte bytes
    → Fit s
    → Fit (write_custom_cmd env s cmd bytes).0
unfolding write_custom_cmd new_frame
write_custom_cmd-Fit env s cmd bytes c l b h =
    let f = record (new_frame cmd 0) { payload = bytes } in
    let good : Sendable f = record {
      ver = refl;
      cmd = c;
      words = record {
        ver_byte = omega arith;
        cmd_byte = omega (arith, c);
        sid_word = omega arith;
        data_bytes = b;
      };
      short = l;
    } in
    if-both (λ x. Fit x.0) s.die (s, false) (write_frame env s f) h (write_frame-Fit env s f good h)
