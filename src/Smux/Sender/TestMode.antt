-- ===== src/Smux/Sender/TestMode.antt =====
-- The loop of sendLoop in lib/smux/session.go with the field `test` of the configuration: it then writes every
-- frame itself.
use revese_server.Base.{
  ◌≡◌, ◌++◌, Bool, true, if◌then◌else◌, List, [], ◌∷◌, Option, none, some, append-nil, append_assoc,
  arith,
}
use revese_server.Smux.Frame.{Frame}
use revese_server.Smux.Sender.{Sender, pass_on, handle_request}

-- A request from s.writes.
unfoldable pub loop_request : Bool → Sender → Frame → Option Sender
loop_request test s f =
    let queued = handle_request s f in if test then some (pass_on s f) else queued

unfoldable pub loop_requests : Bool → Sender → List Frame → Option Sender
loop_requests test s [] = some s
loop_requests test s (f ∷ fs) = elim (loop_request test s f) [
  | none ↦ none
  | some t ↦ loop_requests test t fs
]

-- In this mode all frames leave in the order in which they came, and nothing is queued.
pub test_in_order :
    (s : Sender) (fs : List Frame) → loop_requests true s fs ≡ some (record s { out = s.out ++ fs })
unfolding loop_requests loop_request
test_in_order s [] = ground (arith, append-nil s.out)
test_in_order s (f ∷ fs) =
    ground (arith, test_in_order (pass_on s f) fs, append_assoc s.out (f ∷ []) fs)
