-- ===== src/Smux/Sender/Loops/Hand.antt =====
-- A request in hand, between its queue and `writes`, and a frame that goes past it.
use revese_server.Base.{
  ℕ, ◌<◌, ◌≡◌, ◌∙◌, ◌⊎◌, ◌++◌, true, false, ◌&&◌, ◌||◌, none, some, List, [], ◌∷◌, refl, sym, subst,
  ap, arith, inl, inr, Bool-cases, Option-cases, append-nil, append_assoc,
}
use revese_server.Base.Maps.{lookup}
use revese_server.Smux.Frame.{Frame, cmd_fin}
use revese_server.Smux.Sender.{
  Sender, or_empty, queue_of, pass_on, enqueue, has_room, handle_request, dequeue, collect,
}
use revese_server.Smux.Sender.Order.{is_queued, select, fin_last, select-append, fin_last-cut}
use revese_server.Smux.Sender.Fifo.{Handed, requests, slips, stream_in_order}
use revese_server.Smux.Sender.Collector.{FinsLast, prefix-FinsLast}
use revese_server.Smux.Sender.Loops.{
  Loops, is_none, is_empty, is_direct, send_direct, take_front, first_of, take_request,
  give_request, rest_collector,
}

-- The sender as it will be once the request in hand has gone.
abbrev pub virtual : Loops → Sender
virtual w = record w.sender { out = w.sender.out ++ w.hand }

-- What the collecting goroutine holds: nothing, or a request whose stream still has its queue, or a FIN.
abbrev pub Holds : Loops → Type 0
Holds w =
    (w.hand ≡ [])
    ⊎ ((h : Frame) × (w.hand ≡ h ∷ [])
        × (w.busy ≡ true)
        × ((is_none (lookup h.sid w.sender.queues) ≡ false) ⊎ (h.cmd ≡ cmd_fin)))

pub record Sound (w : Loops) : Type 0 where
  pub holds : Holds w
  pub awake : (w.sender.req_count ≡ 0) ⊎ ((w.owes || w.token || w.busy) ≡ true)
  pub counted : (w.adding ≡ false) ⊎ (w.owes ≡ true)

pub direct-handled :
    (s : Sender) (f : Frame) → is_direct s f ≡ true → handle_request s f ≡ some (pass_on s f)
unfolding is_direct handle_request
direct-handled s f e = elim (Option-cases (lookup f.sid s.queues)) [
  | inl l ↦ ground (arith, e, l)
  | inr (q, l) ↦ ground (arith, e, l)
]

pub queued-handled :
    (s : Sender) (f : Frame)
    → is_direct s f ≡ false
    → has_room s f.sid ≡ true
    → handle_request s f ≡ some (enqueue s f)
unfolding is_direct handle_request
queued-handled s f e r = elim (Option-cases (lookup f.sid s.queues)) [
  | inl l ↦ ground (arith, e, l, r)
  | inr (q, l) ↦ ground (arith, e, l, r)
]

take-collect :
    (s : Sender) (sid : ℕ) (q : List Frame)
    → record (take_front s sid q) { out = (take_front s sid q).out ++ first_of q }
      ≡ dequeue (record s { out = s.out ++ [] }) sid q
unfolding take_front
take-collect s sid [] = refl
take-collect s sid (f ∷ q) = ground (arith, append-nil s.out)

pub take-virtual :
    (w : Loops) (sid : ℕ)
    → w.busy ≡ true
    → w.hand ≡ []
    → virtual (take_request w sid) ≡ collect (virtual w) sid
unfolding take_request collect
take-virtual w sid b e = rw (b, e) (take-collect w.sender sid (queue_of w.sender sid))

pub give-virtual : (w : Loops) → virtual (give_request w) ≡ virtual w
unfolding give_request
give-virtual w = ap (λ o. record w.sender { out = o }) (append-nil (w.sender.out ++ w.hand))

select-one : (k : ℕ) (f : Frame) → is_queued k f ≡ true → select k (f ∷ []) ≡ f ∷ []
unfolding select
select-one k f e = ground (arith, e)

pub is_empty-nil : (q : List Frame) → is_empty q ≡ true → q ≡ []
is_empty-nil [] e = refl
is_empty-nil (f ∷ q) e = absurd (ground (arith, e))

pub rest-virtual : (w : Loops) → virtual (rest_collector w) ≡ virtual w
unfolding rest_collector
rest-virtual w = ground arith

-- Where a FIN is the last of the frames that are known, no other follows it.
none_after :
    (l xs m : List Frame) (h f : Frame)
    → fin_last (l ++ (f ∷ [])) ≡ true
    → l ≡ (xs ++ (h ∷ [])) ++ m
    → m ≡ []
    → h.cmd ≡ cmd_fin
    → (f ∷ []) ≡ []
none_after l xs m h f fin e n c =
    let whole : l ++ (f ∷ []) ≡ xs ++ (h ∷ f ∷ []) =
      ap (λ r. r ++ (f ∷ []))
        (e ∙ (ap (λ r. (xs ++ (h ∷ [])) ++ r) n ∙ append-nil (xs ++ (h ∷ []))))
      ∙ append_assoc xs (h ∷ []) (f ∷ []) in
    fin_last-cut xs h (f ∷ []) (subst (λ r. fin_last r ≡ true) whole fin) c

module _ (size : ℕ) (p : 0 < size) where
  -- A frame that goes past the queues does not belong behind the one in hand.
  apart :
      (fs : List Frame) (w : Loops) (f h : Frame) (k : ℕ)
      → FinsLast (fs ++ (f ∷ []))
      → Handed size fs (virtual w)
      → is_direct w.sender f ≡ true
      → w.hand ≡ h ∷ []
      → (is_none (lookup h.sid w.sender.queues) ≡ false) ⊎ (h.cmd ≡ cmd_fin)
      → (is_queued k f && is_queued k h) ≡ false
  unfolding is_direct
  apart fs w f h k fins hd d e held = elim (Bool-cases (is_queued k f && is_queued k h)) [
    | inr unlike ↦ unlike
    | inl both ↦
        let mine : lookup h.sid w.sender.queues ≡ none =
          elim (Option-cases (lookup f.sid w.sender.queues)) [
            | inl l ↦ subst (λ j. lookup j w.sender.queues ≡ none) (ground (arith, both)) l
            | inr (q, l) ↦ absurd (ground (arith, d, l, both))
          ] in
        let last : h.cmd ≡ cmd_fin = ground (arith, mine, held) in
        let empty : queue_of w.sender k ≡ [] =
          subst (λ j. queue_of w.sender j ≡ []) (ground (arith, both)) (ap or_empty mine) in
        let flow = stream_in_order size fs (virtual w) k p hd (prefix-FinsLast fs f fins k) in
        let tail : select k (w.sender.out ++ w.hand) ≡ select k w.sender.out ++ (h ∷ []) =
          ap (λ l. select k (w.sender.out ++ l)) e
          ∙ select-append k w.sender.out (h ∷ [])
          ∙ ap (λ l. select k w.sender.out ++ l) (select-one k h (ground (arith, both))) in
        let fin : fin_last (select k fs ++ (f ∷ [])) ≡ true =
          subst (λ l. fin_last l ≡ true)
            (select-append k fs (f ∷ [])
              ∙ ap (λ l. select k fs ++ l) (select-one k f (ground (arith, both))))
            (fins k) in
        absurd (
          ground (
            arith,
            none_after (select k fs) (select k w.sender.out) (queue_of w.sender k) h f fin
                (flow ∙ ap (λ l. l ++ queue_of w.sender k) tail) empty last,
          ))
  ]

  -- A frame goes past the queues.
  pub direct-Handed :
      (fs : List Frame) (w : Loops) (f : Frame)
      → FinsLast (fs ++ (f ∷ []))
      → Handed size fs (virtual w)
      → Sound w
      → is_direct w.sender f ≡ true
      → Handed size (fs ++ (f ∷ [])) (virtual (send_direct w f))
  unfolding is_direct
  direct-Handed fs w f fins hd so d = elim so.holds [
    | inl e ↦
        let same : pass_on (virtual w) f ≡ virtual (send_direct w f) =
          ap (λ o. record w.sender { out = o })
            (ground (arith, e, append-nil w.sender.out, append-nil (w.sender.out ++ (f ∷ [])))) in
        subst (Handed size (fs ++ (f ∷ []))) same
          (requests fs (virtual w) f (pass_on (virtual w) f) hd (direct-handled (virtual w) f d))
    | inr (h, e, b, held) ↦
        let same : record (virtual w) { out = w.sender.out ++ (f ∷ h ∷ []) }
            ≡ virtual (send_direct w f) =
          ap (λ o. record w.sender { out = o })
            (sym (append_assoc w.sender.out (f ∷ []) (h ∷ []))
              ∙ ap (λ l. (w.sender.out ++ (f ∷ [])) ++ l) (sym e)) in
        subst (Handed size (fs ++ (f ∷ []))) same (
          slips fs (virtual w) f w.sender.out h hd (ap (λ l. w.sender.out ++ l) e)
            (direct-handled (virtual w) f d) (λ k. apart fs w f h k fins hd d e held))
  ]
