-- ===== src/Smux/Session/Recv/Cases.antt =====
-- The ways in which a frame is handled, as a rule for properties of the outcome.
use revese_server.Base.{◌≡◌, ◌≤◌, true, arith, ℕ_discrete}
use revese_server.Smux.Frame.{Frame, cmd_syn, cmd_fin, cmd_psh, cmd_nop, cmd_ack, cmd_ful, cmd_emp}
use revese_server.Smux.Session.{Session, Env, close}
use revese_server.Smux.Session.Recv.{
  Handled, next, ended, handle_frame, handle_nop, handle_syn, handle_fin, handle_psh, handle_ful,
  handle_emp, handle_ack,
}

-- A frame has arrived.
abbrev pub arrived : Session → Session
arrived s = record s { data_ready = true }

-- The handlers' outcomes on a state.
pub data HandledBy (env : Env) (s : Session) (f : Frame) (h : Handled) : Type 0 where
  by_nop : f.cmd ≡ cmd_nop → h ≡ next (handle_nop env s f) → HandledBy env s f h
  by_syn : f.cmd ≡ cmd_syn → h ≡ handle_syn env s f → HandledBy env s f h
  by_fin : f.cmd ≡ cmd_fin → h ≡ next (handle_fin s f) → HandledBy env s f h
  by_psh : f.cmd ≡ cmd_psh → h ≡ next (handle_psh env s f) → HandledBy env s f h
  by_ful : f.cmd ≡ cmd_ful → h ≡ next (handle_ful s f) → HandledBy env s f h
  by_emp : f.cmd ≡ cmd_emp → h ≡ next (handle_emp s f) → HandledBy env s f h
  by_ack : f.cmd ≡ cmd_ack → h ≡ next (handle_ack env s f) → HandledBy env s f h
  by_close : 7 ≤ f.cmd → h ≡ ended (close s).0 → HandledBy env s f h

-- Every command byte is one of the seven, or it ends the session.
pub handle_frame_cases :
    (env : Env) (s : Session) (f : Frame) → HandledBy env (arrived s) f (handle_frame env s f)
unfolding handle_frame
handle_frame_cases env s f = elim (ℕ_discrete f.cmd cmd_nop) [
  | yes e ↦ by_nop e (ground arith)
  | no n3 ↦ elim (ℕ_discrete f.cmd cmd_syn) [
    | yes e ↦ by_syn e (ground arith)
    | no n0 ↦ elim (ℕ_discrete f.cmd cmd_fin) [
      | yes e ↦ by_fin e (ground arith)
      | no n1 ↦ elim (ℕ_discrete f.cmd cmd_psh) [
        | yes e ↦ by_psh e (ground arith)
        | no n2 ↦ elim (ℕ_discrete f.cmd cmd_ful) [
          | yes e ↦ by_ful e (ground arith)
          | no n5 ↦ elim (ℕ_discrete f.cmd cmd_emp) [
            | yes e ↦ by_emp e (ground arith)
            | no n6 ↦ elim (ℕ_discrete f.cmd cmd_ack) [
              | yes e ↦ by_ack e (ground arith)
              | no n4 ↦ by_close (omega arith) (ground arith)
            ]
          ]
        ]
      ]
    ]
  ]
]
