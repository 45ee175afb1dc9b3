-- ===== src/Smux/Session/Refine/Reads.antt =====
-- What Close and Read of a stream do to the map of Spec.
use revese_server.Base.{
  drop, length, take, ◌==◌, ◌≡◌, ◌++◌, List, Option, Bool, ℕ, if◌then◌else◌, refl, arith, none,
  some, [], true, false, inl, inr, Bool-cases, Option-cases, ltb, take-append-drop-length,
}
use revese_server.Base.Maps.{lookup}
use revese_server.Smux.Frame.{new_frame, cmd_fin}
use revese_server.Smux.Stream.{Stream}
use revese_server.Smux.Session.{Session, Env, put_stream, write_frame, detach, stream_closed}
use revese_server.Smux.Session.Open.{Error}
use revese_server.Smux.Session.Conn.{
  take_bytes, close_stream, read_pass, ReadPass, got, read_error, must_wait, read_panic,
}
use revese_server.Smux.Session.Machine.{pass_state}
use revese_server.Smux.Session.Spec.{Event, quiet, taken, removed}
use revese_server.Smux.Session.Refine.{
  Named, Touches, Alike, Alike-Named, Refines, Alike-Refines, Touches-Sets, Touches-quiet,
  Touches-Named, Refines-before, Refines-after,
}
use revese_server.Smux.Session.Refine.Ops.{write_frame-Alike}
use revese_server.Smux.Session.Refine.Conn.{take_bytes-Touches, detach-Refines}

-- The event of Close.
abbrev pub close_event : Stream → Event
close_event st = if st.die then quiet else removed st.id

pub close_stream-Refines :
    (env : Env) (s : Session) (p : ℕ) {t : Session} {e : Option Error}
    → close_stream env s p ≡ some (t, e)
    → Named s
    → Refines s (close_event (s.objects p)) t
unfolding close_stream stream_closed
close_stream-Refines env s p {t} {e} q n = elim (Bool-cases (s.objects p).die) [
  | inl dead ↦
      let same : t ≡ s = ground arith in rw (dead, same) (Alike-Refines s s (ground arith) n)
  | inr live ↦ elim (Option-cases (lookup (s.objects p).id s.streams)) [
    | inl l ↦ absurd (ground arith)
    | inr (r, l) ↦
        let s1 = put_stream s p (record (s.objects p) { die = true }) in
        let s2 = detach s1 (s.objects p).id r in
        let last : t ≡ (write_frame env s2 (new_frame cmd_fin (s.objects p).id)).0 = ground arith in
        let marked : Alike s s1 = ground arith in
        let there : Refines s1 (removed (s.objects p).id) s2 =
          detach-Refines s1 (s.objects p).id r (Alike-Named s s1 marked n) l in
        rw (live, last)
          (Refines-before s s1 (write_frame env s2 (new_frame cmd_fin (s.objects p).id)).0
            (removed (s.objects p).id) marked
            (Refines-after s1 s2 (write_frame env s2 (new_frame cmd_fin (s.objects p).id)).0
              (removed (s.objects p).id) there
              (write_frame-Alike env s2 (new_frame cmd_fin (s.objects p).id))))
  ]
]

-- Whether a pointer stands in the map.
abbrev pub is_open : Session → ℕ → Bool
is_open s p = elim (lookup (s.objects p).id s.streams) [ none ↦ false | some q ↦ q == p ]

-- The event of a pass of Read.
abbrev pub read_event : Session → ℕ → ReadPass → Event
read_event s p (got t bytes) = if is_open s p then taken (s.objects p).id bytes else quiet
read_event s p (read_error t e) = close_event (s.objects p)
read_event s p (must_wait t) = quiet
read_event s p read_panic = quiet

take-Refines :
    (s t : Session) (p : ℕ) (bytes rest : List ℕ)
    → bytes ++ rest ≡ (s.objects p).buffer
    → Touches s p rest t
    → Named s
    → Refines s (if is_open s p then taken (s.objects p).id bytes else quiet) t
take-Refines s t p bytes rest e h n = elim (Bool-cases (is_open s p)) [
  | inl o ↦
      let l : lookup (s.objects p).id s.streams ≡ some p = ground arith in
      rw o (record {
        does = (rest, ground (arith, l, e), Touches-Sets s t (s.objects p).id p rest n l h);
        named = Touches-Named s t p rest h n;
      })
  | inr c ↦ rw c (record {
    does = Touches-quiet s t p rest n (λ sid l. ground (arith, n.name sid p l)) h;
    named = Touches-Named s t p rest h n;
  })
]

pub read_pass-Refines :
    (env : Env) (s : Session) (p len : ℕ)
    → Named s
    → Refines s (read_event s p (read_pass env s p len)) (pass_state s (read_pass env s p len))
unfolding read_pass
read_pass-Refines env s p len n =
    let bytes = take len (s.objects p).buffer in
    elim (Bool-cases (ltb 0 (length bytes))) [
      | inl some_bytes ↦
          let t = take_bytes env s p (length bytes) in
          rw some_bytes (
            take-Refines s t p bytes (drop (length bytes) (s.objects p).buffer)
              (take-append-drop-length len (s.objects p).buffer)
              (take_bytes-Touches env s p (length bytes)) n)
      | inr no_bytes ↦ elim (Bool-cases (ltb 0 (length (s.objects p).buffer))) [
        | inl no_room ↦
            rw (no_bytes, no_room)
              (take-Refines s s p [] (s.objects p).buffer refl (ground arith) n)
        | inr empty ↦ elim (Bool-cases (s.objects p).rstflag) [
          | inl reset ↦ elim (Option-cases (close_stream env s p)) [
            | inl panic ↦ rw (no_bytes, empty, reset, panic) (Alike-Refines s s (ground arith) n)
            | inr ((t, e), closed) ↦
                rw (no_bytes, empty, reset, closed) (close_stream-Refines env s p {e = e} closed n)
          ]
          | inr waits ↦ rw (no_bytes, empty, waits) (Alike-Refines s s (ground arith) n)
        ]
      ]
    ]
