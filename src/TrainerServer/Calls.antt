-- ===== src/TrainerServer/Calls.antt =====
-- The calls of the server on a valid table.
use modyn.TrainerServer.{Reply, status, model_state}
use modyn.TrainerServer.Queues.{Process, Actions, Values}
use modyn.TrainerServer.Server.{
  StartTrainingRequest, TrainingInfo, Services, Server, put, entry, start_training, registered,
  store_file, store_known, store_final_model,
}
use modyn.TrainerServer.Answers.{
  TrainingStatusResponse, set_process, status_finished, status_of, get_training_status, ModelPath,
  persist_state_to_disk, persisted_checkpoint, latest_of, get_latest_model,
}
use modyn.TrainerServer.Valid.{keys, IsValid, IsFresh, IsBroken, start_training-Started}
use modyn.TrainerServer.Stored.{find-keys}
use modyn.TrainerServer.Raised.{Answers, Answers-bind, Any, Answers-get_values_from_queues}
use modyn.SelectorService.{find}
use Prim.Native.String.{String}
use modyn.Prelude.{
  ◌==◌, if◌then◌else◌, Bool-cases, Option-cases, mem, Result, ℕ, ◌≡◌, refl, sym, ap, ◌∙◌, subst,
  ◌⊎◌, inl, inr, Bool, true, false, Option, none, some, List, [], ◌∷◌,
}

keys-put :
    {A : Type 0} (k : ℕ) (a b : A) (d : List (ℕ × A))
    → find k d ≡ some b
    → keys (put k a d) ≡ keys d
unfolding find put
keys-put k a b [] e = cc e
keys-put k a b ((j, c) ∷ d) e = elim (Bool-cases (j == k)) [
  | inl t ↦ rw t refl
  | inr t ↦ rw t (ap (λ ks. j ∷ ks) (keys-put k a b d (rw t at e)))
]

IsValid-set_process :
    (training_id : ℕ) (p q : Process) (s : Server)
    → find training_id s.training_process_dict ≡ some p
    → IsValid s
    → IsValid (set_process training_id q s)
unfolding IsValid set_process
IsValid-set_process training_id p q s found h =
    (h.0, h.1 ∙ sym (keys-put training_id q p s.training_process_dict found))

-- An id of one dictionary has an entry in the other.
Answers-entry :
    (training_id : ℕ) (s : Server) (info : TrainingInfo)
    → IsValid s
    → find training_id s.training_dict ≡ some info
    → Answers
        (λ p. find training_id s.training_process_dict ≡ some p)
        (entry (find training_id s.training_process_dict))
unfolding IsValid entry
Answers-entry training_id s info h known =
    let q = find-keys training_id s.training_dict s.training_process_dict info h.1 known in
    subst (λ o. Answers (λ p. o ≡ some p) (entry o)) (sym q.1) refl

Answers-if :
    {A : Type 0} (Q : A → Type 0) (b : Bool) (m n : Result A)
    → Answers Q m
    → Answers Q n
    → Answers Q (if b then m else n)
Answers-if Q true m n x y = x
Answers-if Q false m n x y = y

IsValid-get_training_status :
    (first second : Actions) (training_id : ℕ) (s : Server)
    → IsValid s
    → Answers (λ r. IsValid r.1) (get_training_status first second training_id s)
unfolding get_training_status status_of status_finished
IsValid-get_training_status first second training_id s h =
    elim (Option-cases (find training_id s.training_dict)) [
      | inl unknown ↦ simp unknown h
      | inr (info, known) ↦ simp known (
          Answers-bind {A = Process} {B = TrainingStatusResponse × Server}
            (λ p. find training_id s.training_process_dict ≡ some p) (λ r. IsValid r.1) _ _
            (Answers-entry training_id s info h known)
            (λ p found.
              Answers-if (λ r. IsValid r.1) p.alive _ _
                (Answers-bind {A = Values × Process} {B = TrainingStatusResponse × Server} Any
                  (λ r. IsValid r.1) _ _ (Answers-get_values_from_queues first second p)
                  (λ r u. IsValid-set_process training_id p r.1 s found h))
                (IsValid-set_process training_id p _ s found h)))
    ]

module _ (services : Services) (relative_to : String → Result String) (time : ℕ)
    (relative_law : (path : String) → Answers Any (relative_to path)) where
  IsValid-persist_state_to_disk :
      (training_id : ℕ) (o : Option Reply) (p q : Process) (s : Server)
      → IsValid s
      → find training_id s.training_process_dict ≡ some p
      → Answers (λ r. IsValid r.1) (persist_state_to_disk relative_to time training_id (o, q) s)
  unfolding persist_state_to_disk IsValid
  IsValid-persist_state_to_disk training_id none p q s h found =
      IsValid-set_process training_id p q s found h
  IsValid-persist_state_to_disk training_id (some (model_state bytes)) p q s h found =
      IsValid-set_process training_id p q
        (record s { tmp_states = ((time, training_id), bytes) ∷ s.tmp_states }) found h
  IsValid-persist_state_to_disk training_id (some (status batches samples active)) p q s h found =
      inl refl

  IsValid-persisted_checkpoint :
      (o : Option (String × ℕ × ℕ)) (s : Server)
      → IsValid s
      → Answers (λ r. IsValid r.1) (persisted_checkpoint relative_to time o s)
  unfolding persisted_checkpoint
  IsValid-persisted_checkpoint none s h = h
  IsValid-persisted_checkpoint (some (path, batches, samples)) s h =
      Answers-bind Any (λ r. IsValid r.1) _ _ (relative_law path) (λ below u. h)

  IsValid-get_latest_model :
      (meanwhile : Actions) (training_id : ℕ) (s : Server)
      → IsValid s
      → Answers (λ r. IsValid r.1) (get_latest_model relative_to time meanwhile training_id s)
  unfolding get_latest_model latest_of
  IsValid-get_latest_model meanwhile training_id s h =
      elim (Option-cases (find training_id s.training_dict)) [
        | inl unknown ↦ simp unknown h
        | inr (info, known) ↦ simp known (
            Answers-bind {A = Process} {B = Option ModelPath × Server}
              (λ p. find training_id s.training_process_dict ≡ some p) (λ r. IsValid r.1) _ _
              (Answers-entry training_id s info h known)
              (λ p found.
                Answers-if (λ r. IsValid r.1) p.alive _ _
                  (IsValid-persist_state_to_disk training_id _ p _ s h found)
                  (IsValid-persisted_checkpoint _ s h)))
      ]

  IsValid-registered :
      (training_id : ℕ) (o : Option ℕ) (s : Server)
      → IsValid s
      → IsValid (registered services training_id o s).1
  unfolding registered IsValid
  IsValid-registered training_id none s h = h
  IsValid-registered training_id (some m) s h = h

  IsValid-store_file :
      (training_id : ℕ) (info : TrainingInfo) (s : Server)
      → IsValid s
      → IsValid (store_file services training_id info s).1
  unfolding store_file
  IsValid-store_file training_id info s h = elim (Bool-cases (mem training_id s.final_models)) [
    | inl there ↦ simp there (IsValid-registered training_id _ s h)
    | inr gone ↦ simp gone h
  ]

  IsValid-store_final_model :
      (training_id : ℕ) (s : Server)
      → IsValid s
      → Answers (λ r. IsValid r.1) (store_final_model services training_id s)
  unfolding store_final_model store_known
  IsValid-store_final_model training_id s h =
      elim (Option-cases (find training_id s.training_dict)) [
        | inl unknown ↦ simp unknown h
        | inr (info, known) ↦ simp known (
            Answers-bind {A = Process} {B = Option ℕ × Server}
              (λ p. find training_id s.training_process_dict ≡ some p) (λ r. IsValid r.1) _ _
              (Answers-entry training_id s info h known)
              (λ p found. chosen p.alive _ _ h (IsValid-store_file training_id info s h)))
      ]
    where
      chosen :
          (b : Bool) (x y : Option ℕ × Server)
          → IsValid x.1
          → IsValid y.1
          → IsValid (if b then x else y).1
      chosen true x y f g = f
      chosen false x y f g = g

  -- `relative_to` returns, or raises a TypeError or a ValueError. A table is valid if its
  -- dictionaries have the same ids, all below the next one. On such a table a call of start_training
  -- answers that nothing was started or raises, and leaves both dictionaries as they were, or it
  -- answers the next id, which had no entry, and appends a process that is alive under it; the table
  -- stays valid then. The only other case is that the process cannot be started: that is raised, the
  -- processes stay as they were, and get_training_status and store_final_model raise a KeyError for
  -- the id. The calls of get_training_status, get_latest_model and store_final_model on a valid table
  -- return with a valid one, or raise a TypeError or a ValueError, and so never a KeyError.
  pub calls-IsValid :
      (request : StartTrainingRequest) (first second meanwhile : Actions) (training_id : ℕ)
      (s : Server)
      → IsValid s
      → (let r = start_training services request s in
          ((IsValid r.1 × IsFresh s r) ⊎ IsBroken services s r)
          × Answers (λ t. IsValid t.1) (get_training_status first second training_id s)
          × Answers (λ t. IsValid t.1) (get_latest_model relative_to time meanwhile training_id s)
          × Answers (λ t. IsValid t.1) (store_final_model services training_id s))
  calls-IsValid request first second meanwhile training_id s h = (
    start_training-Started services request s h,
    IsValid-get_training_status first second training_id s h,
    IsValid-get_latest_model meanwhile training_id s h,
    IsValid-store_final_model training_id s h,
  )
