-- ===== src/Supervisor/Started.antt =====
-- When a pipeline is started, and what is left behind when it is not.
use modyn.SelectorService.{find}
use modyn.Supervisor.{PipelineConfig, validate_pipeline_config}
use modyn.Supervisor.Accepted.{IsPositive}
use modyn.Supervisor.Status.{running, status_answer, status_for, get_pipeline_status}
use modyn.Supervisor.Start.{
  Failure, invalid_configuration, no_permission, invalid_system, failed_to_register,
  failed_to_execute, PipelineResponse, System, Supervisor, new_pipeline, refuse,
  is_directory_writable, trainer_server_available, validate_system, register_pipeline, executed,
  execute, registration_of, on_valid_system, on_writable, start_pipeline,
}
use modyn.Supervisor.Outcome.{
  IsAccepted, validate-IsAccepted, IsAvailable, Because, IsStarted, IsNotStarted, Outcome, Ends,
}
use modyn.TrainerServer.Server.{begun}
use modyn.TrainerServer.Tables.{find-put}
use modyn.Prelude.{
  ◌==◌, if◌then◌else◌, ==_iff, Bool-cases, Exception, connection_error, os_error, Result, ok, raise,
  ◌>>=◌, ◌>>◌, guard, Result-cases, ℕ, ◌≡◌, refl, sym, ap, ◌∙◌, subst, ◌≢◌, ◌⊎◌, inl, inr, Bool,
  true, false, ◌&&◌, Option, none, some,
}

-- An accepted configuration has a positive number of workers, so registering it is the database's.
register-IsPositive :
    (system : System) (c : PipelineConfig)
    → IsPositive c.training.dataloader_workers
    → register_pipeline system c ≡ system.insert_pipeline c
unfolding register_pipeline
register-IsPositive system c (n, e) = rw e refl

-- A pipeline that has just been started is running.
status-running :
    (pipeline_id : ℕ) (s : Supervisor)
    → find pipeline_id s.pipeline_process_dict ≡ some new_pipeline
    → (get_pipeline_status pipeline_id s).0.status ≡ running
unfolding get_pipeline_status status_for status_answer new_pipeline
status-running pipeline_id s found = ap (λ o. (status_for pipeline_id o s).0.status) found

module _ (system : System) where
  branch :
      (c : PipelineConfig) (m : Bool) (s : Supervisor) (b : Bool)
      (x y : Result PipelineResponse × Supervisor)
      → (b ≡ true → Ends system c m s x)
      → (b ≡ false → Ends system c m s y)
      → Ends system c m s (if b then x else y)
  branch c m s true x y f g = f refl
  branch c m s false x y f g = g refl

  registration_both :
      (c : PipelineConfig) (t i : ℕ)
      → system.get_time_at_storage ≡ ok t
      → register_pipeline system c ≡ ok i
      → registration_of system c ≡ ok (t, i)
  unfolding registration_of
  registration_both c t i time id = simp (time, id) refl

  registration_second :
      (c : PipelineConfig) (t : ℕ) (e : Exception)
      → system.get_time_at_storage ≡ ok t
      → register_pipeline system c ≡ raise e
      → registration_of system c ≡ raise e
  unfolding registration_of
  registration_second c t e time failed = simp (time, failed) refl

  registration_first :
      (c : PipelineConfig) (e : Exception)
      → system.get_time_at_storage ≡ raise e
      → registration_of system c ≡ raise e
  unfolding registration_of
  registration_first c e failed = simp failed refl

  executed_lem :
      (c : PipelineConfig) (evaluation_matrix : Bool) (s : Supervisor) (t pipeline_id : ℕ)
      (begun : Result (Unit {0}))
      → IsAccepted system.validators c evaluation_matrix
      → system.write_testfile ≡ none
      → IsAvailable system c
      → system.get_time_at_storage ≡ ok t
      → system.insert_pipeline c ≡ ok pipeline_id
      → system.start_process t pipeline_id c ≡ begun
      → (let r = executed system c pipeline_id begun s in
          IsStarted system c evaluation_matrix s r ⊎ IsNotStarted system c evaluation_matrix s r)
  unfolding executed
  executed_lem c m s t i (ok u) accepted writable valid time id begun =
      let found = find-put i new_pipeline s.pipeline_process_dict in
      inl (
        t,
        i,
        accepted,
        writable,
        valid,
        time,
        id,
        begun,
        refl,
        found,
        status-running i _ found,
        refl,
      )
  executed_lem c m s t i (raise e) accepted writable valid time id begun =
      inr (failed_to_execute, (t, i, e, begun), refl, refl, inr (refl, (i, refl, refl)))

  -- The state is left as it was.
  unchanged :
      (c : PipelineConfig) (evaluation_matrix : Bool) (s : Supervisor) (f : Failure)
      → Because system c evaluation_matrix f
      → IsNotStarted system c evaluation_matrix s (refuse f, s)
  unfolding refuse
  unchanged c m s f why = (f, why, refl, refl, inl refl)

  registered_lem :
      (c : PipelineConfig) (evaluation_matrix : Bool) (s : Supervisor)
      → IsAccepted system.validators c evaluation_matrix
      → system.write_testfile ≡ none
      → IsAvailable system c
      → (let r = execute system c (registration_of system c) s in
          IsStarted system c evaluation_matrix s r ⊎ IsNotStarted system c evaluation_matrix s r)
  unfolding execute
  registered_lem c m s accepted writable valid =
      let known = register-IsPositive system c accepted.1.0.1.1.0 in
      elim (Result-cases system.get_time_at_storage) [
        | inl (t, time) ↦ elim (Result-cases (system.insert_pipeline c)) [
          | inl (i, id) ↦
              subst (λ x. Outcome system c m s (execute system c x s))
                (sym (registration_both c t i time (known ∙ id)))
                (executed_lem c m s t i (system.start_process t i c) accepted writable valid time id
                  refl)
          | inr (e, failed) ↦
              subst (λ x. Outcome system c m s (execute system c x s))
                (sym (registration_second c t e time (known ∙ failed)))
                (inr (unchanged c m s failed_to_register (e, inr failed)))
        ]
        | inr (e, failed) ↦
            subst (λ x. Outcome system c m s (execute system c x s))
              (sym (registration_first c e failed))
              (inr (unchanged c m s failed_to_register (e, inl failed)))
      ]

  -- What `validate_system` came to, with what was asked.
  abbrev Says : Result Bool → Bool → Result Bool → Result Bool → Type 0
  Says a k b (ok true) = (a ≡ ok true) × (k ≡ true) × (b ≡ ok true)
  Says a k b (ok false) = (a ≡ ok false) ⊎ (b ≡ ok false)
  Says a k b (raise e) = (a ≡ raise e) ⊎ (((k ≡ false) × (e ≡ connection_error)) ⊎ (b ≡ raise e))

  says :
      (a : Result Bool) (k : Bool) (b : Result Bool)
      → Says a k b (a >>= λ x. guard k connection_error >> b >>= λ y. ok (x && y))
  says (raise e) k b = inl refl
  says (ok x) false b = inr (inl (refl, refl))
  says (ok x) true (raise e) = inr (inr refl)
  says (ok true) true (ok true) = (refl, refl, refl)
  says (ok true) true (ok false) = inr refl
  says (ok false) true (ok y) = inl refl

  on_valid_system-Ends :
      (c : PipelineConfig) (evaluation_matrix : Bool) (s : Supervisor) (r : Result Bool)
      → IsAccepted system.validators c evaluation_matrix
      → system.write_testfile ≡ none
      → Says
          (system.check_availability c.dataset_id)
          system.connected_to_trainer_server
          system.trainer_available
          r
      → Ends system c evaluation_matrix s (on_valid_system system c r s)
  unfolding on_valid_system
  on_valid_system-Ends c m s (raise e) accepted writable why = (accepted, inr (writable, why), refl)
  on_valid_system-Ends c m s (ok false) accepted writable why =
      inr (unchanged c m s invalid_system why)
  on_valid_system-Ends c m s (ok true) accepted writable valid =
      registered_lem c m s accepted writable valid

  abbrev Writes : Option ℕ → Result Bool → Type 0
  Writes o (ok true) = o ≡ none
  Writes o (ok false) = o ≡ some 13
  Writes o (raise e) = (errno : ℕ) × (o ≡ some errno) × (errno ≢ 13) × (e ≡ os_error)

  writes :
      (o : Option ℕ)
      → Writes o (elim o [
        | none ↦ ok true
        | some errno ↦ if errno == 13 then ok false else raise os_error
      ])
  writes none = refl
  writes (some errno) = elim (Bool-cases (errno == 13)) [
    | inl denied ↦ simp denied (ap some ((==_iff errno 13).0 denied))
    | inr other ↦ simp other (errno, refl, λ same. cc (other, (==_iff errno 13).1 same), refl)
  ]

  on_writable-Ends :
      (c : PipelineConfig) (evaluation_matrix : Bool) (s : Supervisor) (r : Result Bool)
      → IsAccepted system.validators c evaluation_matrix
      → Writes system.write_testfile r
      → Ends system c evaluation_matrix s (on_writable system c r s)
  unfolding on_writable validate_system trainer_server_available
  on_writable-Ends c m s (raise e) accepted why = (accepted, inl why, refl)
  on_writable-Ends c m s (ok false) accepted why = inr (unchanged c m s no_permission why)
  on_writable-Ends c m s (ok true) accepted writable =
      on_valid_system-Ends c m s _ accepted writable (
        says (system.check_availability c.dataset_id) system.connected_to_trainer_server
          system.trainer_available)

  -- A call of start_pipeline starts the pipeline, answers with an exception, or raises one. It starts
  -- the pipeline only if the configuration is accepted (one GPU, positive numbers of batch size and
  -- workers, a known strategy, an initial model that is random or a given one that is passed on,
  -- evaluations of different datasets by known writers, the dataset of a matrix among them), the
  -- directory can be written, the dataset and the connected trainer server are available, and the
  -- storage, the database and the process raise nothing; then the id of the database is answered, a
  -- live process stands under it, its status is running, and the pipeline is the newest row. If it
  -- answers with an exception, this names one of these conditions that fails, no process is added,
  -- and a row only if it is the process that fails. It raises only for an accepted configuration, an
  -- OSError other than EACCES from the test of the directory or else what asking for the dataset or
  -- the trainer server raises, a ConnectionError without a connection, and changes nothing then.
  pub start_pipeline-Ends :
      (c : PipelineConfig) (evaluation_matrix : Bool) (s : Supervisor)
      → Ends system c evaluation_matrix s (start_pipeline system c evaluation_matrix s)
  unfolding start_pipeline is_directory_writable
  start_pipeline-Ends c m s =
      let accepts = validate-IsAccepted system.validators c m in
      branch c m s (validate_pipeline_config system.validators c m) _ _
        (λ fine. on_writable-Ends c m s _ (accepts.0 fine) (writes system.write_testfile))
        (λ bad. inr (unchanged c m s invalid_configuration (λ a. cc (bad, accepts.1 a))))
