-- ===== src/Programs/Tunnel/Sent.antt =====
-- What the hub's send loop passes on for its first stream.
use revese_server.Base.{IsByte, ◌≡◌, arith, ◌<◌, All, List, ℕ, refl, true, false, [], ◌∷◌}
use revese_server.Smux.Frame.{Frame, new_frame, cmd_syn, cmd_psh}
use revese_server.Smux.Stream.{Stream, split}
use revese_server.Smux.Stream.Split.{IsPiece, split_lem}
use revese_server.Smux.Sender.Order.{fin_last, Own}
use revese_server.Smux.Sender.Wake.{Waker, Runs}
use revese_server.Smux.Sender.Whole.{one_stream_whole}

pieces-Own : (n sid : ℕ) (fs : List Frame) → All (IsPiece n cmd_psh sid) fs → Own sid fs
pieces-Own n sid [] a = tt
pieces-Own n sid (f ∷ fs) (a, more) = (ground (arith, a.cmd, a.sid), pieces-Own n sid fs more)

pieces_fin : (n sid : ℕ) (fs : List Frame) → All (IsPiece n cmd_psh sid) fs → fin_last fs ≡ true
unfolding fin_last
pieces_fin n sid [] a = refl
pieces_fin n sid (f ∷ []) a = refl
pieces_fin n sid (f ∷ g ∷ fs) (a, more) = ground (arith, a.cmd, pieces_fin n sid (g ∷ fs) more)

syn_fin :
    (sid : ℕ) (fs : List Frame) → fin_last fs ≡ true → fin_last (new_frame cmd_syn sid ∷ fs) ≡ true
unfolding fin_last new_frame
syn_fin sid [] e = refl
syn_fin sid (f ∷ fs) e = ground (arith, e)

syn-Own : (sid : ℕ) (fs : List Frame) → Own sid fs → Own sid (new_frame cmd_syn sid ∷ fs)
unfolding new_frame
syn-Own sid fs o = (ground arith, o)

-- The SYN and the frames of a Write leave the send loop as they were handed over.
pub first_sent :
    (size : ℕ) (st : Stream) (bts : List ℕ) (w : Waker)
    → 0 < size
    → 0 < st.frame_size
    → All IsByte bts
    → Runs size (new_frame cmd_syn st.id ∷ split st bts cmd_psh st.id) w
    → w.owes ≡ false
    → w.token ≡ false
    → w.busy ≡ false
    → w.sender.out ≡ new_frame cmd_syn st.id ∷ split st bts cmd_psh st.id
first_sent size st bts w p h hb r owes token busy =
    let frames = split st bts cmd_psh st.id in
    let (whole, pieces) = split_lem st bts cmd_psh st.id h hb in
    one_stream_whole size st.id (new_frame cmd_syn st.id ∷ frames) w p
      (syn-Own st.id frames (pieces-Own st.frame_size st.id frames pieces))
      (syn_fin st.id frames (pieces_fin st.frame_size st.id frames pieces)) r owes token busy
