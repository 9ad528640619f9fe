-- ===== src/TrainerServer/Valid.antt =====
-- The table of trainings: both dictionaries have the same ids, all of them handed out before.
use modyn.TrainerServer.{new_process}
use modyn.TrainerServer.Queues.{Actions}
use modyn.TrainerServer.Tables.{find-put}
use modyn.TrainerServer.Answers.{status_of, get_training_status}
use modyn.TrainerServer.Server.{
  StartTrainingRequest, TrainingInfo, Services, Server, put, entry, take_id, with_info, begun,
  begin_training, with_download, with_pretrained, with_model, start_training, store_known,
  store_final_model,
}
use modyn.SampleStorage.Filters.{All-mono}
use modyn.SelectorService.{find}
use Prim.Native.String.{String}
use modyn.Prelude.{
  if◌then◌else◌, lt→==, All, All-append, Exception, key_error, Result, ok, raise, ℕ, suc, ◌<◌, ◌≡◌,
  refl, sym, ap, ◌∙◌, subst, ◌⊎◌, inl, inr, Bool, true, false, Option, none, some, List, [], ◌∷◌,
  ◌++◌, map, arith,
}

abbrev pub keys : {A : Type 0} → List (ℕ × A) → List ℕ
keys d = map (λ e. e.0) d

unfoldable pub IsValid : Server → Type 0
IsValid s =
    All (λ k. k < s.next_training_id) (keys s.training_dict)
    × (keys s.training_dict ≡ keys s.training_process_dict)

-- An id that was not handed out has no entry, and setting it appends one.
find-fresh : {A : Type 0} (n : ℕ) (d : List (ℕ × A)) → All (λ k. k < n) (keys d) → find n d ≡ none
unfolding find
find-fresh n [] h = refl
find-fresh n ((k, a) ∷ d) h = rw (lt→== k n h.0) (find-fresh n d h.1)

put-fresh :
    {A : Type 0} (n : ℕ) (b : A) (d : List (ℕ × A))
    → All (λ k. k < n) (keys d)
    → put n b d ≡ d ++ (n, b) ∷ []
unfolding put
put-fresh n b [] h = refl
put-fresh n b ((k, a) ∷ d) h = rw (lt→== k n h.0, put-fresh n b d h.1) refl

keys-append : {A : Type 0} (d e : List (ℕ × A)) → keys (d ++ e) ≡ keys d ++ keys e
keys-append [] e = refl
keys-append (x ∷ d) e = ap (λ ks. x.0 ∷ ks) (keys-append d e)

IsValid-taken : (s : Server) → IsValid s → IsValid (take_id s)
unfolding IsValid take_id
IsValid-taken s h = (
  All-mono (λ k. k < s.next_training_id) (λ k. k < suc s.next_training_id) (keys s.training_dict)
      (λ k l. omega (arith, l)) h.0,
  h.1,
)

-- What a start of a training that goes to its end does to the table: nothing, or a fresh entry.
abbrev pub IsFresh : Server → Result (Option ℕ) × Server → Type 0
IsFresh s r =
    ((r.1.training_dict ≡ s.training_dict)
      × (r.1.training_process_dict ≡ s.training_process_dict)
      × ((r.0 ≡ ok none) ⊎ ((e : Exception) × (r.0 ≡ raise e))))
    ⊎ ((r.0 ≡ ok (some s.next_training_id))
        × (find s.next_training_id s.training_process_dict ≡ none)
        × (r.1.training_process_dict
            ≡ s.training_process_dict ++ (s.next_training_id, new_process) ∷ []))

-- The process could not be started: its training is left in one dictionary only, and whoever asks
-- for it by its id gets a KeyError.
abbrev pub IsBroken : Services → Server → Result (Option ℕ) × Server → Type 0
IsBroken services s r =
    (e : Exception) × (services.start_process s.next_training_id ≡ raise e)
    × (r.0 ≡ raise e)
    × (r.1.training_process_dict ≡ s.training_process_dict)
    × ((first second : Actions)
        → get_training_status first second s.next_training_id r.1 ≡ raise key_error)
    × (store_final_model services s.next_training_id r.1 ≡ raise key_error)

abbrev pub Started : Services → Server → Result (Option ℕ) × Server → Type 0
Started services s r = (IsValid r.1 × IsFresh s r) ⊎ IsBroken services s r

-- What is asked about an id that has an entry in the first dictionary only.
asked :
    (first second : Actions) (n : ℕ) (info : TrainingInfo) (s : Server)
    → find n s.training_dict ≡ some info
    → find n s.training_process_dict ≡ none
    → get_training_status first second n s ≡ raise key_error
unfolding get_training_status status_of entry
asked first second n info s known gone = simp (known, gone) refl

stored :
    (services : Services) (n : ℕ) (info : TrainingInfo) (s : Server)
    → find n s.training_dict ≡ some info
    → find n s.training_process_dict ≡ none
    → store_final_model services n s ≡ raise key_error
unfolding store_final_model store_known entry
stored services n info s known gone = simp (known, gone) refl

module _ (services : Services) where
  Started-begun :
      (request : StartTrainingRequest) (path : Option String) (s : Server)
      (loaded started : Result (Unit {0}))
      → services.start_process s.next_training_id ≡ started
      → IsValid s
      → Started services s (begun request s.next_training_id path (take_id s) loaded started)
  unfolding begun with_info take_id IsValid
  Started-begun request path s (raise e) started same h =
      inl ((IsValid-taken s h, inl (refl, refl, inr (e, refl))))
  Started-begun request path s (ok u) (raise e) same h =
      let small = subst (All (λ k. k < s.next_training_id)) h.1 h.0 in
      let known = find-put s.next_training_id _ s.training_dict in
      let gone = find-fresh s.next_training_id s.training_process_dict small in
      inr (
        e,
        same,
        refl,
        refl,
        λ first second. asked first second s.next_training_id _ _ known gone,
        stored services s.next_training_id _ _ known gone,
      )
  Started-begun request path s (ok u) (ok v) same h =
      let small = subst (All (λ k. k < s.next_training_id)) h.1 h.0 in
      let infos = put-fresh s.next_training_id _ s.training_dict h.0 in
      let processes = put-fresh s.next_training_id new_process s.training_process_dict small in
      let n = s.next_training_id in
      inl (
        (
          subst (All (λ k. k < suc n)) (sym (ap keys infos ∙ keys-append s.training_dict _)) (
              All-append (λ k. k < suc n) (keys s.training_dict) (n ∷ []) (IsValid-taken s h).0
                (omega arith, tt)),
          ap keys infos
              ∙ keys-append s.training_dict _
              ∙ ap (λ ks. ks ++ n ∷ []) h.1
              ∙ sym (ap keys processes ∙ keys-append s.training_process_dict _),
        ),
        inr (refl, find-fresh n s.training_process_dict small, processes),
      )

  Started-with_download :
      (request : StartTrainingRequest) (path : Result (Option String)) (s : Server)
      → IsValid s
      → Started services s (with_download services request s.next_training_id path (take_id s))
  unfolding with_download begin_training take_id
  Started-with_download request (raise e) s h =
      inl (IsValid-taken s h, inl (refl, refl, inr (e, refl)))
  Started-with_download request (ok none) s h = inl (IsValid-taken s h, inl (refl, refl, inl refl))
  Started-with_download request (ok (some path)) s h =
      Started-begun request (some path) s (services.load_configuration request) _ refl h

  Started-with_pretrained :
      (request : StartTrainingRequest) (path : Result (Option String)) (s : Server)
      → IsValid s
      → Started services s (with_pretrained services request path s)
  unfolding with_pretrained
  Started-with_pretrained request (raise e) s h = inl (h, inl (refl, refl, inr (e, refl)))
  Started-with_pretrained request (ok none) s h = inl (h, inl (refl, refl, inl refl))
  Started-with_pretrained request (ok (some path)) s h =
      Started-with_download request (services.download_trained_model s.next_training_id path) s h

  Started-with_model :
      (request : StartTrainingRequest) (has : Result Bool) (s : Server)
      → IsValid s
      → Started services s (with_model services request has s)
  unfolding with_model begin_training
  Started-with_model request (raise e) s h = inl (h, inl (refl, refl, inr (e, refl)))
  Started-with_model request (ok false) s h = inl (h, inl (refl, refl, inl refl))
  Started-with_model request (ok true) s h =
      either request.use_pretrained_model _ _
        (Started-with_pretrained request (services.fetch_model request.pretrained_model_id) s h)
        (Started-begun request none s (services.load_configuration request) _ refl h)
    where
      either :
          (b : Bool) (x y : Result (Option ℕ) × Server)
          → Started services s x
          → Started services s y
          → Started services s (if b then x else y)
      either true x y f g = f
      either false x y f g = g

  -- On a valid table, start_training keeps it, or the process could not be started.
  pub start_training-Started :
      (request : StartTrainingRequest) (s : Server)
      → IsValid s
      → Started services s (start_training services request s)
  unfolding start_training
  start_training-Started request s h =
      Started-with_model request (services.has_model request.pipeline_id) s h
