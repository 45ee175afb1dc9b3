-- ===== src/Smux/Sender/Loops/Order.antt =====
-- The order of the frames of each stream, with the goroutines of sendLoop in any order.
use revese_server.Base.{
  ℕ, ◌+◌, ◌<◌, ◌≡◌, ◌∙◌, ◌++◌, true, false, not, ◌&&◌, if◌then◌else◌, List, [], ◌∷◌, refl, sym,
  subst, ap, arith, inl, inr, Bool-cases, append-nil, ℕ_discrete, length, leb,
}
use revese_server.Base.Maps.{lookup-insert}
use revese_server.Smux.Frame.{Frame, cmd_fin}
use revese_server.Smux.Sender.{new_sender, queue_of, enqueue}
use revese_server.Smux.Sender.Order.{select, fin_last, select-append, Own}
use revese_server.Smux.Sender.Fifo.{
  Handed, nothing, requests, collects, stream_in_order, Handed-Keyed,
}
use revese_server.Smux.Sender.Collector.{FinsLast, prefix-FinsLast, Handed-Booked, drained}
use revese_server.Smux.Sender.Loops.{
  Loops, new_loops, is_empty, is_direct, send_direct, send_queue, add_request, send_notify,
  take_notify, take_front, first_of, take_request, give_request, rest_collector, Interleaved,
  begins, directly, queues, counts, notifies, wakes, takes, gives, rests,
}
use revese_server.Smux.Sender.Whole.{Handed-held}
use revese_server.Smux.Sender.Loops.Hand.{
  virtual, Sound, queued-handled, take-virtual, give-virtual, is_empty-nil, rest-virtual,
  direct-Handed,
}

module _ (size : ℕ) (p : 0 < size) where
  queue-Sound : (w : Loops) (f : Frame) → Sound w → Sound (send_queue w f)
  queue-Sound w f so = record {
    holds = elim so.holds [
      | inl e ↦ inl e
      | inr (h, e, b, held) ↦ inr (
        h,
        e,
        b,
        ground (
          arith,
          held,
          lookup-insert w.sender.queues f.sid h.sid (queue_of w.sender f.sid ++ (f ∷ [])),
        ),
      )
    ];
    awake = inr refl;
    counted = inr refl;
  }

  direct-Sound : (w : Loops) (f : Frame) → w.owes ≡ false → Sound w → Sound (send_direct w f)
  direct-Sound w f o so = record {
    holds = so.holds;
    awake = ground (arith, o, so.awake);
    counted = ground (arith, o, so.counted);
  }

  take-Sound :
      (w : Loops) (sid : ℕ) (q : List Frame)
      → w.busy ≡ true
      → Own sid q
      → Sound w
      → Sound (record w { sender = take_front w.sender sid q; hand = first_of q })
  unfolding take_front
  take-Sound w sid [] b own so = record { holds = inl refl; awake = so.awake; counted = so.counted }
  take-Sound w sid (f ∷ q) b (mine, own) so = record {
    holds = inr (
      f,
      refl,
      b,
      elim (ℕ_discrete f.cmd cmd_fin) [
        | yes c ↦ inr c
        | no n ↦ inl (ground (arith, n, mine, lookup-insert w.sender.queues sid f.sid q))
      ],
    );
    awake = inr (ground (arith, b));
    counted = so.counted;
  }

  give-Sound : (w : Loops) → Sound w → Sound (give_request w)
  unfolding give_request
  give-Sound w so = record { holds = inl refl; awake = so.awake; counted = so.counted }

  rest-Sound : (w : Loops) → Sound w → Sound (rest_collector w)
  unfolding rest_collector
  rest-Sound w so =
      elim (Bool-cases
        (w.busy && is_empty w.hand && leb w.sender.req_count (if w.adding then 1 else 0))) [
          | inr goes_on ↦ rw goes_on so
          | inl done ↦ rw done (record {
            holds = elim so.holds [
              | inl e ↦ inl e
              | inr (h, e, b, held) ↦ absurd (ground (arith, e, done))
            ];
            awake = ground (arith, done, so.awake, so.counted);
            counted = so.counted;
          })
        ]

  count-Sound : (w : Loops) → Sound w → Sound (add_request w)
  unfolding add_request
  count-Sound w so = record { holds = so.holds; awake = so.awake; counted = inl refl }

  notify-Sound :
      (fs : List Frame) (w : Loops)
      → Handed size fs (virtual w) × Sound w
      → Handed size fs (virtual (send_notify w)) × Sound (send_notify w)
  unfolding send_notify
  notify-Sound fs w (h, so) = elim (Bool-cases (w.owes && not w.adding)) [
    | inr idle ↦ rw idle (h, so)
    | inl due ↦
        rw due (h, record { holds = so.holds; awake = inr refl; counted = ground (arith, due) })
  ]

  wake-Sound :
      (fs : List Frame) (w : Loops)
      → Handed size fs (virtual w) × Sound w
      → Handed size fs (virtual (take_notify w)) × Sound (take_notify w)
  unfolding take_notify
  wake-Sound fs w (h, so) = elim (Bool-cases (w.token && not w.busy)) [
    | inr idle ↦ rw idle (h, so)
    | inl due ↦ rw due (
      h,
      record {
        holds = elim so.holds [ inl e ↦ inl e | inr (g, e, b, held) ↦ inr (g, e, refl, held) ];
        awake = ground arith;
        counted = so.counted;
      },
    )
  ]

  take_request-Sound :
      (fs : List Frame) (w : Loops) (sid : ℕ)
      → Handed size fs (virtual w) × Sound w
      → Handed size fs (virtual (take_request w sid)) × Sound (take_request w sid)
  unfolding take_request
  take_request-Sound fs w sid (h, so) = elim (Bool-cases (w.busy && is_empty w.hand)) [
    | inr idle ↦ rw idle (h, so)
    | inl free ↦
        let b : w.busy ≡ true = ground (arith, free) in
        let e : w.hand ≡ [] = is_empty-nil w.hand (ground (arith, free)) in
        let (keyed, z) = Handed-Keyed size fs (virtual w) p h in
        (
          subst (Handed size fs) (sym (take-virtual w sid b e)) (collects fs (virtual w) sid h),
          rw free (take-Sound w sid (queue_of w.sender sid) b (keyed sid) so),
        )
  ]

  pub Interleaved-Handed :
      (fs : List Frame) (w : Loops)
      → FinsLast fs
      → Interleaved size fs w
      → Handed size fs (virtual w) × Sound w
  unfolding new_loops new_sender is_direct add_request send_notify take_notify take_request
      rest_collector
  Interleaved-Handed _ _ fins begins =
      (nothing, record { holds = inl refl; awake = inl refl; counted = inl refl })
  Interleaved-Handed _ _ fins (directly fs w f r o d) =
      let (h, so) = Interleaved-Handed fs w (prefix-FinsLast fs f fins) r in
      (direct-Handed size p fs w f fins h so d, direct-Sound w f o so)
  Interleaved-Handed _ _ fins (queues fs w f r o d room) =
      let (h, so) = Interleaved-Handed fs w (prefix-FinsLast fs f fins) r in
      (
        requests fs (virtual w) f (enqueue (virtual w) f) h (queued-handled (virtual w) f d room),
        queue-Sound w f so,
      )
  Interleaved-Handed _ _ fins (counts fs w r) =
      let (h, so) = Interleaved-Handed fs w fins r in (h, count-Sound w so)
  Interleaved-Handed _ _ fins (notifies fs w r) = notify-Sound fs w (Interleaved-Handed fs w fins r)
  Interleaved-Handed _ _ fins (wakes fs w r) = wake-Sound fs w (Interleaved-Handed fs w fins r)
  Interleaved-Handed _ _ fins (takes fs w sid r) =
      take_request-Sound fs w sid (Interleaved-Handed fs w fins r)
  Interleaved-Handed _ _ fins (gives fs w r) =
      let (h, so) = Interleaved-Handed fs w fins r in
      (subst (Handed size fs) (sym (give-virtual w)) h, give-Sound w so)
  Interleaved-Handed _ _ fins (rests fs w r) =
      let (h, so) = Interleaved-Handed fs w fins r in
      (subst (Handed size fs) (sym (rest-virtual w)) h, rest-Sound w so)

  -- The goroutines of sendLoop run in any order, and no request finds its queue full. If no stream hands anything
  -- over after its FIN, then what a stream handed over for its queue is what has left the loop, then what the
  -- collecting goroutine holds, and then what waits in its queue, in this order. None is lost, repeated or overtaken.
  pub kept_in_order :
      (fs : List Frame) (w : Loops) (sid : ℕ)
      → ((k : ℕ) → fin_last (select k fs) ≡ true)
      → Interleaved size fs w
      → select sid fs ≡ (select sid w.sender.out ++ select sid w.hand) ++ queue_of w.sender sid
  kept_in_order fs w sid fins r =
      let (h, so) = Interleaved-Handed fs w fins r in
      stream_in_order size fs (virtual w) sid p h (fins sid)
      ∙ ap (λ l. l ++ queue_of w.sender sid) (select-append sid w.sender.out w.hand)

  at_rest-empty : (w : Loops) → Sound w → w.busy ≡ false → w.hand ≡ []
  at_rest-empty w so b = elim so.holds [
    | inl e ↦ e
    | inr (h, e, busy, held) ↦ absurd (ground (arith, b, busy))
  ]

  -- No wake-up is lost. The goroutines of sendLoop run in any order, no request finds its queue full, and no stream
  -- hands anything over after its FIN. Whenever the loop owes no token, none lies in writeNotify, and the
  -- collecting goroutine is at rest, every queue is empty, every frame that was handed over has left, and
  -- those of each stream in order.
  pub gone_at_rest :
      (fs : List Frame) (w : Loops)
      → ((sid : ℕ) → fin_last (select sid fs) ≡ true)
      → Interleaved size fs w
      → w.owes ≡ false
      → w.token ≡ false
      → w.busy ≡ false
      → ((k : ℕ) → queue_of w.sender k ≡ [])
        × (length w.sender.out ≡ length fs)
        × ((sid : ℕ) → select sid w.sender.out ≡ select sid fs)
  gone_at_rest fs w fins r owes token busy =
      let (h, so) = Interleaved-Handed fs w fins r in
      let none_waits : w.sender.req_count ≡ 0 = ground (arith, owes, token, busy, so.awake) in
      let gone : w.sender.out ++ w.hand ≡ w.sender.out =
        ap (λ l. w.sender.out ++ l) (at_rest-empty w so busy) ∙ append-nil w.sender.out in
      let (empty, sent) =
        drained size fs (virtual w) p h fins (Handed-Booked size fs (virtual w) p fins h)
          none_waits in
      let count : length w.sender.out + w.sender.req_count ≡ length fs =
        ap (λ l. length l + w.sender.req_count) (sym gone)
        ∙ Handed-held size fs (virtual w) p fins h in
      (empty, omega (arith, count, none_waits), λ sid. ap (λ l. select sid l) (sym gone) ∙ sent sid)
