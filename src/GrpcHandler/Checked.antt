-- ===== src/GrpcHandler/Checked.antt =====
-- The answers of the trainer server on the state of a training, and the handler's checks on them.
use modyn.TrainerServer.{run}
use modyn.TrainerServer.Queues.{Status, Process, Actions, Values, get_values_from_queues}
use modyn.TrainerServer.Server.{TrainingInfo, Server, entry}
use modyn.TrainerServer.Answers.{
  running_response, finished_response, set_process, status_finished, status_of, get_training_status,
}
use modyn.TrainerServer.Tables.{find-put}
use modyn.SelectorService.{find}
use modyn.GrpcHandler.{Report, inspect_state, inspect, elapse_on, elapse}
use Prim.Native.String.{String}
use modyn.Prelude.{
  runtime_error, ok, raise, ℕ, ◌≡◌, refl, ap, Bool, true, false, Option, none, some, List, [],
}

-- An answer of a running training passes the checks of the handler, whatever was read.
pub inspect-running :
    (v : Values) → (reports : List Report) × (inspect (running_response v) ≡ ok reports)
unfolding inspect inspect_state running_response
inspect-running v = by_status v.is_training v.downsampling_status v.training_status
  where
    by_status :
        (active : Option Bool) (d t : Status)
        → (reports : List Report) × (inspect (
              running_response
                (record { is_training = active; downsampling_status = d; training_status = t }))
            ≡ ok reports)
    by_status active none none = ([], refl)
    by_status active (some x) none = (_, refl)
    by_status active none (some y) = (_, refl)
    by_status active (some x) (some y) = (_, refl)

-- So does that of one that has ended without an exception.
pub inspect-finished :
    (checkpoint : Option (String × ℕ × ℕ)) (log : String)
    → (reports : List Report) × (inspect (finished_response none checkpoint log) ≡ ok reports)
unfolding inspect inspect_state finished_response
inspect-finished none log = ([], refl)
inspect-finished (some c) log = (_, refl)

pub inspect-failed :
    (message : String) (checkpoint : Option (String × ℕ × ℕ)) (log : String)
    → inspect (finished_response (some message) checkpoint log) ≡ raise runtime_error
unfolding inspect finished_response
inspect-failed message checkpoint log = refl

pub elapse_lem :
    (training_id : ℕ) (actions : Actions) (s : Server) (p : Process)
    → find training_id s.training_process_dict ≡ some p
    → elapse training_id actions s ≡ set_process training_id (run actions p) s
unfolding elapse elapse_on
elapse_lem training_id actions s p found = ap (elapse_on training_id actions s) found

pub at_hand :
    (training_id : ℕ) (p : Process) (s : Server) {m : Option TrainingInfo}
    → find training_id s.training_dict ≡ m
    → find training_id (set_process training_id p s).training_dict ≡ m
unfolding set_process
at_hand training_id p s e = e

pub found_process :
    (training_id : ℕ) (p : Process) (s : Server)
    → find training_id (set_process training_id p s).training_process_dict ≡ some p
unfolding set_process
found_process training_id p s = find-put training_id p s.training_process_dict

pub status_alive :
    (first second : Actions) (training_id : ℕ) (s : Server) (info : TrainingInfo) (p p' : Process)
    (v : Values)
    → find training_id s.training_dict ≡ some info
    → find training_id s.training_process_dict ≡ some p
    → p.alive ≡ true
    → get_values_from_queues first second p ≡ ok (v, p')
    → get_training_status first second training_id s
      ≡ ok (running_response v, set_process training_id p' s)
unfolding get_training_status status_of entry
status_alive first second training_id s info p p' v known found alive read =
    simp (known, found, alive, read) refl

pub status_dead :
    (first second : Actions) (training_id : ℕ) (s : Server) (info : TrainingInfo) (p : Process)
    → find training_id s.training_dict ≡ some info
    → find training_id s.training_process_dict ≡ some p
    → p.alive ≡ false
    → get_training_status first second training_id s ≡ ok (status_finished training_id info p s)
unfolding get_training_status status_of entry
status_dead first second training_id s info p known found dead = simp (known, found, dead) refl
