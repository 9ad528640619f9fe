-- ===== src/GrpcHandler/Rounds.antt =====
-- One round of the handler's loop, in which the process is found alive or not.
use modyn.TrainerServer.{run}
use modyn.TrainerServer.Queues.{
  Process, Values, get_values_from_queues, take_exception, check_for_training_exception,
}
use modyn.TrainerServer.Server.{TrainingInfo, Server}
use modyn.TrainerServer.Answers.{
  get_latest_checkpoint, get_training_log, running_response, finished_response, set_process,
  status_finished, get_training_status,
}
use modyn.SelectorService.{find}
use modyn.GrpcHandler.{
  Round, Report, create_tracker, close_counter, inspect, after_answer, answered_with, status_loop,
  with_tracker,
}
use modyn.GrpcHandler.Checked.{
  inspect-running, inspect-finished, inspect-failed, elapse_lem, at_hand, found_process,
  status_alive, status_dead,
}
use modyn.GrpcHandler.Life.{life}
use Prim.Native.String.{String}
use modyn.Prelude.{
  runtime_error, Result, ok, raise, ℕ, ◌≡◌, refl, sym, ap, ◌∙◌, subst, true, false, Option, some,
  List, [], ◌∷◌, ◌++◌, append-nil,
}

module _ {Log : Type 0} (json_loads : String → Result Log) where
  -- What the handler hands on of a training that has ended.
  unfoldable pub outcome : String → List String → Result Log
  outcome log [] = json_loads log
  outcome log (message ∷ messages) = raise runtime_error

  abbrev pub Ends : Option (Result Log × List Report) → Result Log → Type 0
  Ends m result = (reports : List Report) × (m ≡ some (result, reports))

  Ends-finished :
      (messages : List String) (checkpoint : Option (String × ℕ × ℕ)) (log : String) (p : Process)
      (later : Option (Result Log × List Report))
      → (let res = finished_response (take_exception messages p).0 checkpoint log in
          Ends (after_answer json_loads res (inspect res) later) (outcome log messages))
  unfolding outcome take_exception after_answer finished_response
  Ends-finished [] checkpoint log p later =
      let i = inspect-finished checkpoint log in (i.0, rw i.1 refl)
  Ends-finished (message ∷ messages) checkpoint log p later =
      ([], rw (inspect-failed message checkpoint log) refl)

  pub Ends-to :
      (m : Option (Result Log × List Report)) (a b : Result Log) → Ends m a → a ≡ b → Ends m b
  Ends-to m a b (reports, e) f = (reports, e ∙ ap (λ x. some (x, reports)) f)

  Ends-running :
      (v : Values) (later : Option (Result Log × List Report)) (result : Result Log)
      → Ends later result
      → (let res = running_response v in
          Ends (after_answer json_loads res (inspect res) later) result)
  unfolding after_answer running_response
  Ends-running v later result (reports, e) =
      let i = inspect-running v in (i.0 ++ reports, rw (i.1, e) refl)

  -- A round in which the server finds that the process has ended.
  pub status_loop-ended :
      (training_id : ℕ) (r : Round) (rounds : List Round) (s : Server) (info : TrainingInfo)
      (p : Process) (messages : List String)
      → find training_id s.training_dict ≡ some info
      → find training_id s.training_process_dict ≡ some p
      → life (run r.asleep p) ≡ (false, messages)
      → Ends
          (status_loop json_loads training_id (r ∷ rounds) s)
          (outcome (get_training_log training_id s) messages)
  unfolding status_loop answered_with status_finished check_for_training_exception set_process
      get_training_log
  status_loop-ended training_id r rounds s info p messages known found ended =
      let q = run r.asleep p in
      let s1 = set_process training_id q s in
      let dead =
        status_dead r.first r.second training_id s1 info q (at_hand training_id q s known)
          (found_process training_id q s) (ap (λ l. l.0) ended) in
      let finished =
        Ends-finished q.exception_queue (get_latest_checkpoint info s1)
          (get_training_log training_id s1) q
          (status_loop json_loads training_id rounds (status_finished training_id info q s1).1) in
      subst
        (λ m.
          Ends (answered_with json_loads m (λ s'. status_loop json_loads training_id rounds s'))
            (outcome (get_training_log training_id s) messages))
        (sym dead
          ∙ ap (get_training_status r.first r.second training_id)
              (sym (elapse_lem training_id r.asleep s p found)))
        (Ends-to _ _ _ finished
          (ap (outcome (get_training_log training_id s)) (ap (λ l. l.1) ended)))

  -- A round in which the process is alive.
  pub status_loop-running :
      (training_id : ℕ) (r : Round) (rounds : List Round) (s : Server) (info : TrainingInfo)
      (p p' : Process) (v : Values) (result : Result Log)
      → find training_id s.training_dict ≡ some info
      → find training_id s.training_process_dict ≡ some p
      → (let q = run r.asleep p in
          q.alive ≡ true
          → get_values_from_queues r.first r.second q ≡ ok (v, p')
          → Ends
              (status_loop json_loads training_id rounds
                (set_process training_id p' (set_process training_id q s)))
              result
          → Ends (status_loop json_loads training_id (r ∷ rounds) s) result)
  unfolding status_loop answered_with
  status_loop-running training_id r rounds s info p p' v result known found alive read rest =
      let q = run r.asleep p in
      let s1 = set_process training_id q s in
      let answer =
        status_alive r.first r.second training_id s1 info q p' v (at_hand training_id q s known)
          (found_process training_id q s) alive read in
      subst
        (λ m.
          Ends (answered_with json_loads m (λ s'. status_loop json_loads training_id rounds s'))
            result)
        (sym answer
          ∙ ap (get_training_status r.first r.second training_id)
              (sym (elapse_lem training_id r.asleep s p found)))
        (Ends-running v _ result rest)

  -- The tracker is closed when a log is handed on.
  unfoldable pub closing : Result Log → List Report
  closing (ok log) = close_counter ∷ []
  closing (raise e) = []

  pub Ends-with_tracker :
      (total_samples status_bar_scale : ℕ) (m : Option (Result Log × List Report))
      (result : Result Log)
      → Ends m result
      → (reports : List Report) × (with_tracker json_loads total_samples status_bar_scale m
          ≡ some
              (result, create_tracker total_samples status_bar_scale ∷ reports ++ closing result))
  unfolding with_tracker closing
  Ends-with_tracker total_samples status_bar_scale m (ok log) (reports, e) =
      (reports, ap (with_tracker json_loads total_samples status_bar_scale) e)
  Ends-with_tracker total_samples status_bar_scale m (raise x) (reports, e) = (
    reports,
    ap (with_tracker json_loads total_samples status_bar_scale) e
        ∙ ap (λ rs. some (raise x, create_tracker total_samples status_bar_scale ∷ rs))
            (sym (append-nil reports)),
  )
