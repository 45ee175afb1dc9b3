-- ===== src/Smux/Sender/Loops/Overtaking.antt =====
-- A request of sendLoop in lib/smux/session.go that finds its queue full while the other goroutine holds
-- one of its stream.
use revese_server.Base.{
  ℕ, ◌<◌, ◌≡◌, ◌∙◌, ◌++◌, true, false, List, [], ◌∷◌, ap, subst, arith, append_assoc,
}
use revese_server.Base.Maps.{lookup-insert}
use revese_server.Smux.Frame.{Frame, cmd_psh}
use revese_server.Smux.Sender.{queue_of, has_room}
use revese_server.Smux.Sender.Order.{is_queued, select, fin_last, select-append, Own}
use revese_server.Smux.Sender.Fifo.{Handed-Keyed}
use revese_server.Smux.Sender.Loops.{
  Loops, send_direct, give_request, take_oldest, put_in, rest_of, Interleaved,
}
use revese_server.Smux.Sender.Loops.Hand.{virtual}
use revese_server.Smux.Sender.Loops.Order.{Interleaved-Handed, kept_in_order}

select-two :
    (k : ℕ) (l : List Frame) (g h : Frame)
    → is_queued k g ≡ true
    → is_queued k h ≡ true
    → select k ((l ++ (g ∷ [])) ++ (h ∷ [])) ≡ select k l ++ (g ∷ h ∷ [])
unfolding select
select-two k l g h mine yours =
    ap (λ r. select k r) (append_assoc l (g ∷ []) (h ∷ []))
    ∙ (select-append k l (g ∷ h ∷ []) ∙ ground (arith, mine, yours))

select-hand : (k : ℕ) (h : Frame) → is_queued k h ≡ true → select k (h ∷ []) ≡ h ∷ []
unfolding select
select-hand k h e = ground (arith, e)

take_oldest-queue_of :
    (w : Loops) (k : ℕ) → queue_of (take_oldest w k).sender k ≡ rest_of (queue_of w.sender k)
unfolding take_oldest
take_oldest-queue_of w k =
    ground (arith, lookup-insert w.sender.queues k k (rest_of (queue_of w.sender k)))

put_in-queue_of :
    (w : Loops) (f : Frame)
    → queue_of (put_in w f).sender f.sid ≡ queue_of w.sender f.sid ++ (f ∷ [])
unfolding put_in
put_in-queue_of w f =
    ground (arith, lookup-insert w.sender.queues f.sid f.sid (queue_of w.sender f.sid ++ (f ∷ [])))

-- The goroutines of sendLoop have run in any order, and no stream handed anything over after its FIN. The collecting
-- goroutine holds a request h of a stream. The loop has taken data f of it, and its queue is full: it takes
-- the oldest one, g, puts f in, and sends g, before the other goroutine sends h. Then g, which was handed
-- over right after h, has left before h.
pub overtaken :
    (size : ℕ) (fs : List Frame) (w : Loops) (f g h : Frame) (q : List Frame)
    → 0 < size
    → ((sid : ℕ) → fin_last (select sid fs) ≡ true)
    → Interleaved size fs w
    → w.owes ≡ false
    → f.cmd ≡ cmd_psh
    → has_room w.sender f.sid ≡ false
    → w.hand ≡ h ∷ []
    → is_queued f.sid h ≡ true
    → queue_of w.sender f.sid ≡ g ∷ q
    → let u = give_request (send_direct (put_in (take_oldest w f.sid) f) g) in
      (select f.sid fs ≡ select f.sid w.sender.out ++ (h ∷ g ∷ q))
      × (select f.sid u.sender.out ≡ select f.sid w.sender.out ++ (g ∷ h ∷ []))
      × (queue_of u.sender f.sid ≡ q ++ (f ∷ []))
unfolding give_request put_in take_oldest
overtaken size fs w f g h q p fins r o psh full held yours e =
    let (hd, so) = Interleaved-Handed size p fs w fins r in
    let (keyed, z) = Handed-Keyed size fs (virtual w) p hd in
    let (mine, own) : Own f.sid (g ∷ q) = subst (Own f.sid) e (keyed f.sid) in
    (
      kept_in_order size p fs w f.sid fins r
          ∙ (ap (λ l. (select f.sid w.sender.out ++ select f.sid l) ++ queue_of w.sender f.sid) held
              ∙ (ap (λ l. (select f.sid w.sender.out ++ l) ++ queue_of w.sender f.sid)
                    (select-hand f.sid h yours)
                  ∙ (ap (λ l. (select f.sid w.sender.out ++ (h ∷ [])) ++ l) e
                      ∙ append_assoc (select f.sid w.sender.out) (h ∷ []) (g ∷ q)))),
      ap (λ l. select f.sid ((w.sender.out ++ (g ∷ [])) ++ l)) held
          ∙ select-two f.sid w.sender.out g h mine yours,
      put_in-queue_of (take_oldest w f.sid) f
          ∙ ap (λ l. l ++ (f ∷ [])) (take_oldest-queue_of w f.sid ∙ ap rest_of e),
    )
