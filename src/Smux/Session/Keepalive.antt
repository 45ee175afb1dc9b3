-- ===== src/Smux/Session/Keepalive.antt =====
-- The timeout tick of keepalive in lib/smux/session.go, over whole histories.
use revese_server.Base.{◌⊎◌, ◌≡◌, ◌∙◌, ap, inl, inr, true, false, refl, Bool, ℕ, arith, Bool-cases}
use revese_server.Smux.Config.{Config}
use revese_server.Smux.Session.{Session, new_session, close}
use revese_server.Smux.Session.Recv.{tick_timeout}
use revese_server.Smux.Session.Machine.{Reach, here, then_step}
use revese_server.Smux.Session.Kept.{ready_after, Step-Kept}

-- Whether a frame was handled since the last timeout tick of a history, or since its start.
unfoldable pub heard : {s t : Session} → Reach s t → Bool
heard here = false
heard (then_step r st) = ready_after st (heard r)

heard-ready :
    (s : Session) {t : Session} (r : Reach s t) → s.data_ready ≡ false → t.data_ready ≡ heard r
unfolding heard
heard-ready s here e = e
heard-ready s (then_step r st) e = (Step-Kept st).1 ∙ ap (ready_after st) (heard-ready s r e)

-- At any time of a session, a timeout tick ends it if no frame was handled since the last one, or since the
-- session was made; otherwise the tick leaves it as it is but for dataReady, which is false again.
pub watchdog :
    (c : Config) (client : Bool) (now : ℕ) (t : Session) (r : Reach (new_session c client now) t)
    → ((heard r ≡ false) × ((tick_timeout t).die ≡ true))
      ⊎ ((heard r ≡ true) × (tick_timeout t ≡ record t { data_ready = false }))
unfolding tick_timeout close new_session
watchdog c client now t r =
    let ready : t.data_ready ≡ heard r = heard-ready (new_session c client now) r refl in
    elim (Bool-cases (heard r)) [
      | inl yes' ↦ inr (yes', ground (arith, ready, yes'))
      | inr no' ↦ inl (no', ground (arith, ready, no'))
    ]
