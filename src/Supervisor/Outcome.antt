-- ===== src/Supervisor/Outcome.antt =====
-- A start of a pipeline, and why there is none: what is left behind in both cases.
use modyn.Supervisor.{
  PipelineConfig, Validators, validate_pipeline_config_content, validate_pipeline_config,
}
use modyn.Supervisor.Validated.{
  IsAcceptedTraining, IsAcceptedEvaluation, IsEvaluated, and_both, iff_refl, training_iff,
  evaluation_iff, matrix_iff,
}
use modyn.Supervisor.Status.{running, get_pipeline_status}
use modyn.Supervisor.Start.{
  Failure, invalid_configuration, no_permission, invalid_system, failed_to_register,
  failed_to_execute, PipelineResponse, System, Supervisor, new_pipeline,
}
use modyn.SelectorService.{find}
use modyn.Prelude.{
  Exception, connection_error, os_error, Result, ok, raise, ℕ, ◌≡◌, ◌≢◌, ◌↔◌, ◌⊎◌, Bool, true,
  false, none, some, ◌∷◌,
}

module _ (v : Validators) where
  -- A configuration that the supervisor accepts, with or without an evaluation matrix.
  abbrev pub IsAccepted : PipelineConfig → Bool → Type 0
  IsAccepted c evaluation_matrix =
      (v.validate_yaml c ≡ true)
      × (IsAcceptedTraining c.training
          × ((v.model_available c.model_id ≡ true)
              × ((v.trigger_available c.trigger_id ≡ true)
                  × (IsAcceptedEvaluation c.evaluation
                      × IsEvaluated c.dataset_id c.evaluation evaluation_matrix))))

  pub validate-IsAccepted :
      (c : PipelineConfig) (evaluation_matrix : Bool)
      → (validate_pipeline_config v c evaluation_matrix ≡ true) ↔ IsAccepted c evaluation_matrix
  unfolding validate_pipeline_config validate_pipeline_config_content
  validate-IsAccepted c evaluation_matrix = and_both _ _ iff_refl (
      and_both _ _ (training_iff c.training) (
        and_both _ _ iff_refl (
          and_both _ _ iff_refl (
            and_both _ _ (evaluation_iff c.evaluation)
              (matrix_iff c.dataset_id c.evaluation evaluation_matrix)))))

module _ (system : System) where
  abbrev pub IsAvailable : PipelineConfig → Type 0
  IsAvailable c =
      (system.check_availability c.dataset_id ≡ ok true)
      × (system.connected_to_trainer_server ≡ true)
      × (system.trainer_available ≡ ok true)

  -- What a start raises: an error of the system but EACCES from the test of the directory, or, if
  -- the directory can be written, what asking for the dataset and for the trainer server raises.
  abbrev pub Escapes : PipelineConfig → Exception → Type 0
  Escapes c e =
      ((errno : ℕ) × (system.write_testfile ≡ some errno) × (errno ≢ 13) × (e ≡ os_error))
      ⊎ ((system.write_testfile ≡ none)
          × ((system.check_availability c.dataset_id ≡ raise e)
              ⊎ (((system.connected_to_trainer_server ≡ false) × (e ≡ connection_error))
                  ⊎ (system.trainer_available ≡ raise e))))

  -- Why a pipeline is not started.
  abbrev pub Because : PipelineConfig → Bool → Failure → Type 0
  Because c evaluation_matrix invalid_configuration =
      ¬ (IsAccepted system.validators c evaluation_matrix)
  Because c evaluation_matrix no_permission = system.write_testfile ≡ some 13
  Because c evaluation_matrix invalid_system =
      (system.check_availability c.dataset_id ≡ ok false) ⊎ (system.trainer_available ≡ ok false)
  Because c evaluation_matrix failed_to_register =
      (e : Exception) × ((system.get_time_at_storage ≡ raise e)
        ⊎ (system.insert_pipeline c ≡ raise e))
  Because c evaluation_matrix failed_to_execute =
      (t : ℕ) × (pipeline_id : ℕ) × (e : Exception) × (system.start_process t pipeline_id c
        ≡ raise e)

  abbrev pub IsStarted : PipelineConfig → Bool → Supervisor → PipelineResponse × Supervisor → Type 0
  IsStarted c evaluation_matrix s r =
      (t : ℕ) × (pipeline_id : ℕ) × IsAccepted system.validators c evaluation_matrix
      × (system.write_testfile ≡ none)
      × IsAvailable c
      × (system.get_time_at_storage ≡ ok t)
      × (system.insert_pipeline c ≡ ok pipeline_id)
      × (system.start_process t pipeline_id c ≡ ok tt)
      × (r.0 ≡ record { pipeline_id = some pipeline_id; exception = none })
      × (find pipeline_id r.1.pipeline_process_dict ≡ some new_pipeline)
      × ((get_pipeline_status pipeline_id r.1).0.status ≡ running)
      × (r.1.pipelines ≡ (pipeline_id, c) ∷ s.pipelines)

  -- At most the row of the pipeline is added.
  abbrev pub IsLeft : PipelineConfig → Supervisor → Failure → PipelineResponse × Supervisor → Type 0
  IsLeft c s f r =
      (r.1.pipelines ≡ s.pipelines)
      ⊎ ((f ≡ failed_to_execute)
          × ((pipeline_id : ℕ) × (r.0.pipeline_id ≡ some pipeline_id)
              × (r.1.pipelines ≡ (pipeline_id, c) ∷ s.pipelines)))

  abbrev pub IsNotStarted :
      PipelineConfig → Bool → Supervisor → PipelineResponse × Supervisor → Type 0
  IsNotStarted c evaluation_matrix s r =
      (f : Failure) × Because c evaluation_matrix f
      × (r.0.exception ≡ some f)
      × (r.1.pipeline_process_dict ≡ s.pipeline_process_dict)
      × IsLeft c s f r

  abbrev pub Outcome : PipelineConfig → Bool → Supervisor → PipelineResponse × Supervisor → Type 0
  Outcome c evaluation_matrix s r =
      IsStarted c evaluation_matrix s r ⊎ IsNotStarted c evaluation_matrix s r

  -- How a call of start_pipeline ends.
  abbrev pub Ends :
      PipelineConfig → Bool → Supervisor → Result PipelineResponse × Supervisor → Type 0
  Ends c evaluation_matrix s (ok response, t) = Outcome c evaluation_matrix s (response, t)
  Ends c evaluation_matrix s (raise e, t) =
      IsAccepted system.validators c evaluation_matrix × Escapes c e × (t ≡ s)
