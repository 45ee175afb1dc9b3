-- ===== src/Smux/Session/Tokens/Bound.antt =====
-- The size of the buffers of a session of lib/smux/session.go, and the wait of its receive loop.
use revese_server.Smux.Frame.RoundTrip.{read_frame-short}
use revese_server.Smux.Frame.{ReadError, Frame, read_frame, frame, failed, panicked, ReadResult}
use revese_server.Smux.Session.Recv.{ended, handle_frame, recv_round, Handled, handled}
use revese_server.Base.{
  IsByte, All, List, Bool-cases, ◌∙◌, arith, ap, Bool, ◌⊎◌, ◌≤◌, ◌+◌, length, ◌<◌, ◌≡◌, ℕ, inl, inr,
  true, false, refl, lt32,
}
use revese_server.Smux.Session.Machine.{
  commanding, delaying_stream, writing, handing, resuming, waking, reading, closing_stream,
  delaying, timing, ticking, pinging, closing, parking, offering, accepting, opening, Step,
  receiving, Reach, here, then_step,
}
use revese_server.Base.Int.{pos, int32_of}
use revese_server.Smux.Config.{Config}
use revese_server.Smux.Session.{Session, Env, new_session, close}
use revese_server.Smux.Session.Kept.{Reach-Kept}
use revese_server.Smux.Session.Tokens.{Owes, buffered}
use revese_server.Smux.Session.Tokens.Reach.{arriving, Step-Owes, new_session-Owes}

-- A frame is handled only while there are tokens, and its length fits its header.
abbrev pub InPace : {s t : Session} → Step s t → Type 0
InPace (receiving env s f) = (lt32 0 s.bucket ≡ true) × (length f.payload < 65536)
InPace st = Unit {0}

unfoldable pub Paced : {s t : Session} → Reach s t → Type 0
Paced here = Unit {0}
Paced (then_step r st) = InPace st × Paced r

-- In a state within the bound, bucket and buffers make up the whole as numbers.
positive : (b : ℕ) → lt32 0 b ≡ true → 0 < b
positive b p = ground (arith, p)

exact_account :
    (n : ℕ) (s : Session)
    → s.config.max_receive_buffer ≡ pos n
    → n < 2147418112
    → Owes (n + 65534) s 0
    → (lt32 0 s.bucket ≡ true)
    → s.bucket + buffered s.next_ptr s.objects ≡ n
exact_account n s c h o p = ground (arith, p, o.account, o.in_range, o.room, ap int32_of c)

full_account :
    (n : ℕ) (s : Session)
    → s.config.max_receive_buffer ≡ pos n
    → n < 2147418112
    → Owes (n + 65534) s 0
    → lt32 0 s.bucket ≡ false
    → n ≤ buffered s.next_ptr s.objects
full_account n s c h o p = ground (arith, p, o.account, o.in_range, o.room, ap int32_of c)

pace_cases :
    {s t : Session} (st : Step s t)
    → InPace st
    → (arriving st ≡ 0) ⊎ ((lt32 0 s.bucket ≡ true) × (arriving st < 65536))
pace_cases (opening env s) p = inl refl
pace_cases (accepting c s) p = inl refl
pace_cases (receiving env s f) p = inr p
pace_cases (offering env s p') p = inl refl
pace_cases (parking s) p = inl refl
pace_cases (closing s) p = inl refl
pace_cases (pinging env s) p = inl refl
pace_cases (ticking env s) p = inl refl
pace_cases (timing s) p = inl refl
pace_cases (delaying d s) p = inl refl
pace_cases (closing_stream env s p' t e h q) p = inl refl
pace_cases (reading env s p' len h) p = inl refl
pace_cases (waking c s p' t h q) p = inl refl
pace_cases (writing s p' bytes c rs t n e h q) p = inl refl
pace_cases (handing s p' bytes before f after h q) p = inl refl
pace_cases (resuming c s p' t h q) p = inl refl
pace_cases (delaying_stream d s p' h) p = inl refl
pace_cases (commanding env s cmd bytes) p = inl refl

room_left :
    (n : ℕ) (s t : Session) (st : Step s t)
    → s.config.max_receive_buffer ≡ pos n
    → n < 2147418112
    → InPace st
    → Owes (n + 65534) s 0
    → buffered s.next_ptr s.objects + arriving st ≤ n + 65534
room_left n s t st c h p o = elim (pace_cases st p) [
  | inl none_come ↦ omega (arith, none_come, o.room)
  | inr (tokens, few) ↦ omega (arith, few, exact_account n s c h o tokens, positive s.bucket tokens)
]

Paced-Owes :
    (n : ℕ) {s t : Session} (r : Reach s t)
    → s.config.max_receive_buffer ≡ pos n
    → n < 2147418112
    → Paced r
    → Owes (n + 65534) s 0
    → Owes (n + 65534) t 0
unfolding Paced
Paced-Owes n here c h p o = o
Paced-Owes n (then_step {t} {u} r st) c h (p, ps) o =
    let before = Paced-Owes n r c h ps o in
    Step-Owes st
      (room_left n t u st (ap (λ k. k.max_receive_buffer) (Reach-Kept r).config ∙ c) h p before)
      before

-- In a history of a session in which every frame is handled while there are tokens, and is of at most
-- 65535 bytes, the buffers of all streams together never hold more than MaxReceiveBuffer and 65534
-- bytes; and there are tokens, so that the receive loop does not wait, exactly as long as they hold
-- fewer bytes than MaxReceiveBuffer. MaxReceiveBuffer is above 0 and below 2 ^ 31 - 65536.
pub buffers_bounded :
    (c : Config) (client : Bool) (now n : ℕ) (t : Session) (r : Reach (new_session c client now) t)
    → c.max_receive_buffer ≡ pos n
    → 0 < n
    → n < 2147418112
    → Paced r
    → (buffered t.next_ptr t.objects ≤ n + 65534)
      × (((lt32 0 t.bucket ≡ true) × (buffered t.next_ptr t.objects < n))
          ⊎ ((lt32 0 t.bucket ≡ false) × (n ≤ buffered t.next_ptr t.objects)))
unfolding new_session
buffers_bounded c client now n t r e lo hi p =
    let o = Paced-Owes n r e hi p (new_session-Owes c client now) in
    let kept : t.config.max_receive_buffer ≡ pos n =
      ap (λ k. k.max_receive_buffer) (Reach-Kept r).config ∙ e in
    (
      omega (arith, o.room),
      elim (Bool-cases (lt32 0 t.bucket)) [
        | inl tokens ↦
            inl
              (tokens, omega (arith, exact_account n t kept hi o tokens, positive t.bucket tokens))
        | inr none_left ↦ inr (none_left, full_account n t kept hi o none_left)
      ],
    )

ReadResult-cases :
    (r : ReadResult)
    → ((f : Frame) × (rest : List ℕ) × (r ≡ frame f rest))
      ⊎ (((x : ReadError) × (r ≡ failed x)) ⊎ (r ≡ panicked))
ReadResult-cases (frame f rest) = inl (f, rest, refl)
ReadResult-cases (failed x) = inr (inl (x, refl))
ReadResult-cases panicked = inr (inr refl)

-- What a round of the receive loop of an open session handles is paced.
pub recv_round-InPace :
    (env : Env) (s : Session) (input : List ℕ) (h : Handled) (rest : List ℕ)
    → All IsByte input
    → s.die ≡ false
    → recv_round env s input ≡ handled h rest
    → ((f : Frame) × (h ≡ handle_frame env s f)
        × (lt32 0 s.bucket ≡ true)
        × (length f.payload < 65536))
      ⊎ (h ≡ ended (close s).0)
unfolding recv_round
recv_round-InPace env s input h rest b l e = elim (ReadResult-cases (read_frame input)) [
  | inl (f, r, q) ↦
      inl (f, ground (arith, e, q, l), ground (arith, e, q, l), read_frame-short input f r b q)
  | inr (inl (x, q)) ↦ inr (ground (arith, e, q, l))
  | inr (inr q) ↦ absurd (ground (arith, e, q, l))
]
