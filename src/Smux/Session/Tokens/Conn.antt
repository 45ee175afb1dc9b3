-- ===== src/Smux/Session/Tokens/Conn.antt =====
-- The account through Read, Write and Close of a stream, and through keepalive.
use revese_server.Base.{
  ℕ, ◌≤◌, ◌<◌, ◌≡◌, refl, true, false, List, Option, some, arith, length, length-drop, length-take,
  take, drop, Bool-cases, inl, inr, sym, ltb, Option-cases, subst,
}
use revese_server.Base.Maps.{lookup}
use revese_server.Smux.Frame.{new_frame, cmd_fin}
use revese_server.Smux.Stream.{Stream}
use revese_server.Smux.Session.{Session, Env, put_stream, stream_closed, write_custom_cmd}
use revese_server.Smux.Session.Open.{Error}
use revese_server.Smux.Session.Recv.{ping, tick_timeout}
use revese_server.Smux.Session.Conn.{
  close_stream, read_pass, take_bytes, read_wait, write_wait, WaitChoice, take_event, take_deadline,
  take_die, woken, FrameReply, write,
}
use revese_server.Smux.Session.Conn.Cases.{write_cases}
use revese_server.Smux.Session.Machine.{pass_state}
use revese_server.Smux.Session.Tokens.{Owes, Same-Owes, put-Owes, return_tokens-Owes}
use revese_server.Smux.Session.Tokens.Flow.{
  put-Same, detach-Owes, stream_return_tokens-Same, Owes-of,
}
use revese_server.Smux.Session.Tokens.Steps.{plain-Owes, write_frame-Owes, close-Owes}

pub close_stream-Owes :
    {cap : ℕ} (env : Env) (s : Session) (p : ℕ) {t : Session} {e : Option Error}
    → close_stream env s p ≡ some (t, e)
    → Owes cap s 0
    → Owes cap t 0
unfolding close_stream stream_closed
close_stream-Owes {cap} env s p {t} {e} q o = elim (Bool-cases (s.objects p).die) [
  | inl dead ↦
      plain-Owes s t (ground arith) (ground arith) (ground arith) (ground arith) (ground arith) o
  | inr live ↦ elim (Option-cases (lookup (s.objects p).id s.streams)) [
    | inl l ↦ absurd (ground arith)
    | inr (p', l) ↦
        subst (λ u. Owes cap u 0) (ground arith)
          (write_frame-Owes env _ (new_frame cmd_fin (s.objects p).id) (
            detach-Owes marked (s.objects p).id p' (o.valid _ p' l)
              (Same-Owes s marked 0 (put-Same s p _ refl) o)))
  ]
]
  where
    marked : Session
    marked = put_stream s p (record (s.objects p) { die = true })

pub take_bytes-Owes :
    {cap : ℕ} (env : Env) (s : Session) (p n : ℕ)
    → p < s.next_ptr
    → n ≤ length (s.objects p).buffer
    → Owes cap s 0
    → Owes cap (take_bytes env s p n) 0
unfolding take_bytes
take_bytes-Owes {cap} env s p n h b o = Same-Owes _ _ 0 (stream_return_tokens-Same env _ p n) (
    return_tokens-Owes _ n 0 (
      Owes-of _ (omega arith) (
        put-Owes s p n 0 (record (s.objects p) { buffer = drop n (s.objects p).buffer }) h
          (omega (arith, length-drop n (s.objects p).buffer)) o)))

pub read_pass-Owes :
    {cap : ℕ} (env : Env) (s : Session) (p len : ℕ)
    → p < s.next_ptr
    → Owes cap s 0
    → Owes cap (pass_state s (read_pass env s p len)) 0
unfolding read_pass
read_pass-Owes env s p len h o = elim (Bool-cases (ltb 0 (length bytes))) [
  | inl some_read ↦
      rw (some_read, read_pass)
        (take_bytes-Owes env s p (length bytes) h
          (omega (arith, length-take len (s.objects p).buffer)) o)
  | inr none_read ↦ elim (Bool-cases (ltb 0 (length (s.objects p).buffer))) [
    | inl rest ↦ rw (none_read, rest, read_pass) o
    | inr drained ↦ elim (Bool-cases (s.objects p).rstflag) [
      | inl reset ↦ elim (Option-cases (close_stream env s p)) [
        | inl panic ↦ simp (none_read, drained, reset, panic) o
        | inr ((t, e), closed) ↦
            simp (none_read, drained, reset, closed) (close_stream-Owes env s p closed o)
      ]
      | inr going ↦ simp (none_read, drained, going) o
    ]
  ]
]
  where
    bytes : List ℕ
    bytes = take len (s.objects p).buffer

put-read-Owes :
    {cap : ℕ} (s : Session) (p : ℕ) (st : Stream) {t : Session}
    → st.buffer ≡ (s.objects p).buffer
    → put_stream s p st ≡ t
    → Owes cap s 0
    → Owes cap t 0
put-read-Owes {cap} s p st b e o =
    subst (λ u. Owes cap u 0) e (Same-Owes s _ 0 (put-Same s p st b) o)

pub read_wait-Owes :
    {cap : ℕ} (c : WaitChoice) (s : Session) (p : ℕ) {t : Session}
    → read_wait c s p ≡ woken t
    → Owes cap s 0
    → Owes cap t 0
unfolding read_wait
read_wait-Owes take_event s p e o =
    put-read-Owes s p (record (s.objects p) { ch_read_event = false }) refl (ground arith) o
read_wait-Owes take_deadline s p e o = absurd (ground arith)
read_wait-Owes take_die s p e o = absurd (ground arith)

pub write_wait-Owes :
    {cap : ℕ} (c : WaitChoice) (s : Session) (p : ℕ) {t : Session}
    → write_wait c s p ≡ woken t
    → Owes cap s 0
    → Owes cap t 0
unfolding write_wait
write_wait-Owes take_event s p e o =
    put-read-Owes s p (record (s.objects p) { bucket_notify = false }) refl (ground arith) o
write_wait-Owes take_deadline s p e o = absurd (ground arith)
write_wait-Owes take_die s p e o = absurd (ground arith)

sent-Owes : {cap : ℕ} (s t : Session) → t ≡ record s { sent = t.sent } → Owes cap s 0 → Owes cap t 0
sent-Owes {cap} s t e o =
    subst (λ u. Owes cap u 0) (sym e)
      (plain-Owes s (record s { sent = t.sent }) refl refl refl refl refl o)

pub write-Owes :
    {cap : ℕ} (s : Session) (p : ℕ) (bytes : List ℕ) (c : WaitChoice) (rs : List FrameReply)
    {t : Session} {m : ℕ} {e : Option Error}
    → write s p bytes c rs ≡ some (t, m, e)
    → Owes cap s 0
    → Owes cap t 0
write-Owes {cap} s p bytes c rs {t} q o = elim (write_cases s p bytes c rs q) [
  | inl same ↦ subst (λ u. Owes cap u 0) (sym same) o
  | inr (u, inl same, e) ↦ sent-Owes u t e (subst (λ v. Owes cap v 0) (sym same) o)
  | inr (u, inr w, e) ↦ sent-Owes u t e (write_wait-Owes c s p w o)
]

pub tick_timeout-Owes : {cap : ℕ} (s : Session) → Owes cap s 0 → Owes cap (tick_timeout s) 0
unfolding tick_timeout
tick_timeout-Owes s o = elim (Bool-cases s.data_ready) [
  | inl ready ↦ simp ready (plain-Owes s _ refl refl refl refl refl o)
  | inr silent ↦ simp silent (close-Owes s o)
]

pub ping-Owes : {cap : ℕ} (env : Env) (s : Session) → Owes cap s 0 → Owes cap (ping env s) 0
unfolding ping
ping-Owes env s o = write_frame-Owes env _ _ (plain-Owes s _ refl refl refl refl refl o)

pub write_custom_cmd-Owes :
    {cap : ℕ} (env : Env) (s : Session) (cmd : ℕ) (bytes : List ℕ)
    → Owes cap s 0
    → Owes cap (write_custom_cmd env s cmd bytes).0 0
unfolding write_custom_cmd
write_custom_cmd-Owes env s cmd bytes o = elim (Bool-cases s.die) [
  | inl dead ↦ simp dead o
  | inr live ↦ simp live (write_frame-Owes env s _ o)
]
