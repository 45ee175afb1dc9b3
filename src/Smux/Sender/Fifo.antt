-- ===== src/Smux/Sender/Fifo.antt =====
-- The frames of each stream leave the send loop in the order in which they came, where a request and a turn of
-- the collecting goroutine are one step each.
use revese_server.Base.{
  append-nil, ◌==◌, ◌&&◌, ap, Bool, ◌∙◌, if◌then◌else◌, sym, ◌++◌, ◌⊎◌, ◌≢◌, subst, ℕ, ◌≡◌, List,
  Option, ◌<◌, refl, arith, [], ◌∷◌, true, false, some, none, inl, inr, ℕ_discrete,
}
use revese_server.Base.Maps.{lookup}
use revese_server.Smux.Frame.{Frame, cmd_syn, cmd_fin, cmd_psh}
use revese_server.Smux.Sender.{
  Sender, new_sender, queue_of, pass_on, take_in, handle_request, dequeue, collect,
}
use revese_server.Smux.Sender.Order.{
  is_queued, select, fin_last, select-append, fin_last-prefix, fin_last-cut, Own, Keyed, Flows,
  queue_of-dequeue, dequeue-Flows, Keyed-insert,
}
use revese_server.Smux.Sender.Steps.{Good, take_in-Good, pass_on-Good, List-cases}

not_there :
    (s : Sender) (f : Frame) (sid : ℕ)
    → lookup f.sid s.queues ≡ none
    → (is_queued sid f ≡ false) ⊎ (queue_of s sid ≡ [])
not_there s f sid l = elim (ℕ_discrete f.sid sid) [
  | yes same ↦ inr (ground (arith, subst (λ k. lookup k s.queues ≡ none) same l))
  | no ne ↦ inl (ground arith)
]

fin_request-Good :
    (s t : Sender) (f : Frame) (q : Option (List Frame))
    → 0 < s.queue_size
    → Keyed s
    → f.cmd ≡ cmd_fin
    → lookup f.sid s.queues ≡ q
    → handle_request s f ≡ some t
    → Good s t (f ∷ [])
unfolding handle_request
fin_request-Good s t f none p k c l e =
    let w : pass_on s f ≡ t = ground arith in
    subst (λ u. Good s u (f ∷ [])) w (pass_on-Good s f (λ sid. not_there s f sid l) k)
fin_request-Good s t f (some q) p k c l e =
    let w : take_in s f ≡ t = ground arith in
    subst (λ u. Good s u (f ∷ [])) w (take_in-Good s f p (ground arith) k)

handle_request-Good :
    (s t : Sender) (f : Frame)
    → 0 < s.queue_size
    → Keyed s
    → handle_request s f ≡ some t
    → Good s t (f ∷ [])
unfolding handle_request
handle_request-Good s t f p k e = elim (ℕ_discrete f.cmd cmd_syn) [
  | yes c ↦
      let w : take_in s f ≡ t = ground arith in
      subst (λ u. Good s u (f ∷ [])) w (take_in-Good s f p (ground arith) k)
  | no ns ↦ elim (ℕ_discrete f.cmd cmd_fin) [
    | yes c ↦ fin_request-Good s t f (lookup f.sid s.queues) p k c refl e
    | no nf ↦ elim (ℕ_discrete f.cmd cmd_psh) [
      | yes c ↦
          let w : take_in s f ≡ t = ground arith in
          subst (λ u. Good s u (f ∷ [])) w (take_in-Good s f p (ground arith) k)
      | no np ↦
          let w : pass_on s f ≡ t = ground arith in
          subst (λ u. Good s u (f ∷ [])) w (pass_on-Good s f (λ sid. inl (ground arith)) k)
    ]
  ]
]

Own-if : (b : Bool) (k : ℕ) (q : List Frame) → Own k q → Own k (if b then [] else q)
Own-if true k q h = tt
Own-if false k q h = h

collect-Keyed :
    (s : Sender) (k : ℕ) → Keyed s → Keyed (collect s k) × ((collect s k).queue_size ≡ s.queue_size)
unfolding collect
collect-Keyed s k keyed = elim (List-cases (queue_of s k)) [
  | inl e ↦ rw e (keyed, refl)
  | inr (g, q, e) ↦
      let (hg, hq) : Own k (g ∷ q) = subst (Own k) e (keyed k) in
      rw e (
        Keyed-insert s (dequeue s k (g ∷ q)) k (if g.cmd == cmd_fin then [] else q)
            (λ j. queue_of-dequeue s k j g q) (Own-if (g.cmd == cmd_fin) k q hq) keyed,
        refl,
      )
]

-- Behind a FIN at the head of its queue nothing waits.
pub fin_alone :
    (s : Sender) (k sid : ℕ) (g : Frame) (q : List Frame)
    → queue_of s k ≡ g ∷ q
    → fin_last (select sid s.out ++ queue_of s sid) ≡ true
    → (k ≢ sid) ⊎ ((g.cmd ≢ cmd_fin) ⊎ (q ≡ []))
fin_alone s k sid g q e fin = elim (ℕ_discrete k sid) [
  | no ne ↦ inl ne
  | yes same ↦ elim (ℕ_discrete g.cmd cmd_fin) [
    | no n ↦ inr (inl n)
    | yes c ↦
        let here : queue_of s sid ≡ g ∷ q = subst (λ j. queue_of s j ≡ g ∷ q) same e in
        let whole : fin_last (select sid s.out ++ (g ∷ q)) ≡ true =
          subst (λ l. fin_last (select sid s.out ++ l) ≡ true) here fin in
        inr (inr (fin_last-cut (select sid s.out) g q whole c))
  ]
]

collect-Flows :
    (s : Sender) (k sid : ℕ)
    → Keyed s
    → fin_last (select sid s.out ++ queue_of s sid) ≡ true
    → Flows sid s (collect s k) []
unfolding collect select
collect-Flows s k sid keyed fin = elim (List-cases (queue_of s k)) [
  | inl e ↦ rw e (sym (append-nil (select sid s.out ++ queue_of s sid)))
  | inr (g, q, e) ↦
      let (hg, hq) : Own k (g ∷ q) = subst (Own k) e (keyed k) in
      rw e (dequeue-Flows k sid s g q hg e (fin_alone s k sid g q e fin))
]

-- `Handed accepted s`: from the start of sendLoop, whose queues hold `size` requests, the frames
-- `accepted` were taken from s.writes, in this order, and the collector took turns in between. A frame that
-- is passed on directly may go in front of the one that the collector holds, of another stream (slips).
pub data Handed (size : ℕ) : List Frame → Sender → Type 0 where
  nothing : Handed size [] (new_sender size)
  requests :
      (fs : List Frame) (s : Sender) (f : Frame) (t : Sender)
      → Handed size fs s
      → handle_request s f ≡ some t
      → Handed size (fs ++ (f ∷ [])) t
  collects :
      (fs : List Frame) (s : Sender) (k : ℕ) → Handed size fs s → Handed size fs (collect s k)
  slips :
      (fs : List Frame) (s : Sender) (f : Frame) (xs : List Frame) (h : Frame)
      → Handed size fs s
      → s.out ≡ xs ++ (h ∷ [])
      → handle_request s f ≡ some (pass_on s f)
      → ((k : ℕ) → (is_queued k f && is_queued k h) ≡ false)
      → Handed size (fs ++ (f ∷ [])) (record s { out = xs ++ (f ∷ h ∷ []) })

-- Two frames of which one does not go through the queue of the stream.
select-swap :
    (sid : ℕ) (xs : List Frame) (f h : Frame)
    → (is_queued sid f && is_queued sid h) ≡ false
    → select sid (xs ++ (f ∷ h ∷ [])) ≡ select sid ((xs ++ (h ∷ [])) ++ (f ∷ []))
unfolding select
select-swap sid [] f h e = ground (arith, e)
select-swap sid (x ∷ xs) f h e = ground (arith, select-swap sid xs f h e)

pub Handed-Keyed :
    (size : ℕ) (fs : List Frame) (s : Sender)
    → 0 < size
    → Handed size fs s
    → Keyed s × (s.queue_size ≡ size)
unfolding new_sender lookup
Handed-Keyed size _ _ p nothing = (λ k. tt, refl)
Handed-Keyed size _ t p (requests fs s f _ r e) =
    let (k, z) = Handed-Keyed size fs s p r in
    let g = handle_request-Good s t f (omega (arith, z)) k e in (g.keyed, g.size ∙ z)
Handed-Keyed size _ _ p (slips fs s f xs h r out e apart) =
    let (k, z) = Handed-Keyed size fs s p r in (k, z)
Handed-Keyed size _ _ p (collects fs s k r) =
    let (h, z) = Handed-Keyed size fs s p r in let (h', z') = collect-Keyed s k h in (h', z' ∙ z)

-- Where a request and a turn are one step each, for a stream that hands over nothing after its FIN: the frames that it handed over for its queue are
-- those that left the send loop, in the same order, and then those that wait in its queue. None is
-- lost, repeated or overtaken, whatever the other streams do and whenever the collector takes a turn.
pub stream_in_order :
    (size : ℕ) (fs : List Frame) (s : Sender) (sid : ℕ)
    → 0 < size
    → Handed size fs s
    → fin_last (select sid fs) ≡ true
    → select sid fs ≡ select sid s.out ++ queue_of s sid
unfolding new_sender lookup select
stream_in_order size _ _ sid p nothing fin = refl
stream_in_order size _ t sid p (requests fs s f _ r e) fin =
    let (k, z) = Handed-Keyed size fs s p r in
    let g = handle_request-Good s t f (omega (arith, z)) k e in
    let parts = select-append sid fs (f ∷ []) in
    let before = stream_in_order size fs s sid p r (
      fin_last-prefix (select sid fs) (select sid (f ∷ []))
        (subst (λ l. fin_last l ≡ true) parts fin)) in
    parts ∙ (ap (λ l. l ++ select sid (f ∷ [])) before ∙ sym (g.flows sid))
stream_in_order size _ _ sid p (slips fs s f xs h r out e apart) fin =
    let (k, z) = Handed-Keyed size fs s p r in
    let g = handle_request-Good s (pass_on s f) f (omega (arith, z)) k e in
    let parts = select-append sid fs (f ∷ []) in
    let before = stream_in_order size fs s sid p r (
      fin_last-prefix (select sid fs) (select sid (f ∷ []))
        (subst (λ l. fin_last l ≡ true) parts fin)) in
    let swapped : select sid (xs ++ (f ∷ h ∷ [])) ≡ select sid (s.out ++ (f ∷ [])) =
      select-swap sid xs f h (apart sid) ∙ ap (λ l. select sid (l ++ (f ∷ []))) (sym out) in
    parts
    ∙ (ap (λ l. l ++ select sid (f ∷ [])) before
        ∙ (sym (g.flows sid) ∙ ap (λ l. l ++ queue_of s sid) (sym swapped)))
stream_in_order size _ _ sid p (collects fs s k r) fin =
    let (h, z) = Handed-Keyed size fs s p r in
    let before = stream_in_order size fs s sid p r fin in
    before
    ∙ (sym (append-nil (select sid s.out ++ queue_of s sid))
        ∙ sym (collect-Flows s k sid h (subst (λ l. fin_last l ≡ true) before fin)))
