-- ===== src/GrpcHandler/Waiting.antt =====
-- `wait_for_training_completion` and the trainer server that answers it, until the process ends.
use modyn.TrainerServer.{run}
use modyn.TrainerServer.Queues.{Process, Actions}
use modyn.TrainerServer.Server.{TrainingInfo, Server}
use modyn.TrainerServer.Answers.{get_training_log, set_process}
use modyn.SelectorService.{find}
use modyn.GrpcHandler.{Round, Report, create_tracker, status_loop, wait_for_training_completion}
use modyn.GrpcHandler.Checked.{at_hand, found_process}
use modyn.GrpcHandler.Rounds.{
  outcome, Ends, Ends-to, status_loop-ended, status_loop-running, closing, Ends-with_tracker,
}
use modyn.GrpcHandler.Life.{
  Life, live, life, live_dead, live-append, IsClean, IsClean-run, life-run,
}
use modyn.GrpcHandler.Reading.{Reads-get_values_from_queues}
use Prim.Native.String.{String}
use modyn.Prelude.{
  Bool-cases, Result, ℕ, ◌≡◌, sym, ap, ◌∙◌, inl, inr, true, false, some, List, [], ◌∷◌, ◌++◌,
}

abbrev pub round_actions : Round → Actions
round_actions r = r.asleep ++ r.first ++ r.second

abbrev pub all_actions : List Round → Actions
all_actions [] = []
all_actions (r ∷ rounds) = round_actions r ++ all_actions rounds

live-round :
    (r : Round) (actions : Actions) (l : Life)
    → live (round_actions r ++ actions) l
      ≡ live actions (live r.second (live r.first (live r.asleep l)))
live-round r actions l =
    live-append (round_actions r) actions l
    ∙ ap (live actions) (
        live-append (r.asleep ++ r.first) r.second l
        ∙ ap (live r.second) (live-append r.asleep r.first l))

live-round_dead :
    (r : Round) (actions : Actions) (l : Life)
    → l.0 ≡ false
    → live actions (live r.second (live r.first l)) ≡ l
live-round_dead r actions l dead =
    ap (λ k. live actions (live r.second k)) (live_dead r.first l dead)
    ∙ ap (live actions) (live_dead r.second l dead)
    ∙ live_dead actions l dead

module _ {Log : Type 0} (json_loads : String → Result Log) where
  -- The rounds up to the one in which the process is found dead.
  pub status_loop-outcome :
      (training_id : ℕ) (rounds : List Round) (final : Round) (s : Server) (info : TrainingInfo)
      (p : Process)
      → find training_id s.training_dict ≡ some info
      → find training_id s.training_process_dict ≡ some p
      → IsClean p
      → (live (all_actions rounds) (life p)).0 ≡ false
      → Ends json_loads (status_loop json_loads training_id (rounds ++ final ∷ []) s) (
          outcome json_loads
            (get_training_log training_id s)
            (live (all_actions rounds) (life p)).1)
  unfolding live set_process get_training_log
  status_loop-outcome training_id [] final s info p known found clean dead =
      status_loop-ended json_loads training_id final [] s info p p.exception_queue known found (
        life-run final.asleep p
        ∙ live_dead final.asleep (life p) dead
        ∙ ap (λ b. (b, p.exception_queue)) dead)
  status_loop-outcome training_id (r ∷ rounds) final s info p known found clean dead =
      let q = run r.asleep p in
      let later = live-round r (all_actions rounds) (life p) in
      elim (Bool-cases q.alive) [
        | inl alive ↦
            let reads =
              Reads-get_values_from_queues r.first r.second q (IsClean-run r.asleep p clean) in
            let s1 = set_process training_id q s in
            let s2 = set_process training_id reads.1 s1 in
            let on = reads.4 ∙ ap (λ l. live r.second (live r.first l)) (life-run r.asleep p) in
            let lives = later ∙ ap (live (all_actions rounds)) (sym on) in
            let rest =
              status_loop-outcome training_id rounds final s2 info reads.1
                (at_hand training_id reads.1 s1 (at_hand training_id q s known))
                (found_process training_id reads.1 s1) reads.3 (ap (λ l. l.0) (sym lives) ∙ dead) in
            status_loop-running json_loads training_id r (rounds ++ final ∷ []) s info p reads.1
              reads.0 _ known found alive reads.2
              (Ends-to json_loads _ _ _ rest
                (ap (λ l. outcome json_loads (get_training_log training_id s) l.1) (sym lives)))
        | inr ended ↦
            let here = ap (λ b. (b, q.exception_queue)) ended in
            Ends-to json_loads _ _ _
              (status_loop-ended json_loads training_id r (rounds ++ final ∷ []) s info p
                q.exception_queue known found here)
              (ap (λ l. outcome json_loads (get_training_log training_id s) l.1)
                (sym (
                  later
                  ∙ live-round_dead r (all_actions rounds) (live r.asleep (life p))
                      (ap (λ l. l.0) (sym (life-run r.asleep p)) ∙ ended)
                  ∙ sym (life-run r.asleep p))))
      ]

  -- A training is registered with its process, whose queues hold queries for the status and statuses
  -- alone, and the process has ended when the rounds are over. Then the handler, with a connection
  -- and one more round at most, leaves its loop: with the log of the training if the process put no
  -- exception before its end, and with a RuntimeError otherwise; no check on an answer of the server
  -- fails, and on the log only what reading JSON raises is raised. The first report makes the
  -- tracker, and the last closes it when a log is handed on.
  pub wait_for_training_completion-ends :
      (total_samples status_bar_scale training_id : ℕ) (rounds : List Round) (final : Round)
      (s : Server) (info : TrainingInfo) (p : Process)
      → find training_id s.training_dict ≡ some info
      → find training_id s.training_process_dict ≡ some p
      → IsClean p
      → (let ending = live (all_actions rounds) (p.alive, p.exception_queue) in
          let result = outcome json_loads (get_training_log training_id s) ending.1 in
          ending.0 ≡ false
          → (reports : List Report) × (wait_for_training_completion json_loads true total_samples
                status_bar_scale training_id
                (rounds ++ final ∷ [])
                s
              ≡ some (
                result,
                create_tracker total_samples status_bar_scale ∷ reports
                    ++ closing json_loads result,
              )))
  unfolding wait_for_training_completion
  wait_for_training_completion-ends total_samples status_bar_scale training_id rounds final s info p
        known found clean dead =
      Ends-with_tracker json_loads total_samples status_bar_scale _ _
        (status_loop-outcome training_id rounds final s info p known found clean dead)
