-- ===== src/TrainerServer/Stored.antt =====
-- `store_final_model` on a valid table: which answers there are, and a second call.
use modyn.TrainerServer.Queues.{Process}
use modyn.TrainerServer.Server.{
  TrainingInfo, Services, Server, entry, registered, store_file, store_known, store_final_model,
}
use modyn.TrainerServer.Valid.{keys, IsValid}
use modyn.SelectorService.{find}
use modyn.Prelude.{
  ◌==◌, Bool-cases, Option-cases, filter_by, mem, ok, ℕ, ◌≡◌, refl, ap, ◌∙◌, ◌⊎◌, inl, inr, true,
  false, not, Option, none, some, List, [], ◌∷◌,
}

-- Dictionaries with the same ids have entries at the same ids.
pub find-keys :
    {A B : Type 0} (k : ℕ) (d : List (ℕ × A)) (e : List (ℕ × B)) (a : A)
    → keys d ≡ keys e
    → find k d ≡ some a
    → (b : B) × (find k e ≡ some b)
unfolding find
find-keys k [] e a same f = cc f
find-keys k (x ∷ d) [] a same f = cc same
find-keys k ((i, x) ∷ d) ((j, y) ∷ e) a same f =
    let here : i ≡ j = cc same in
    let later : keys d ≡ keys e = cc same in
    elim (Bool-cases (j == k)) [
      | inl t ↦ (y, rw t refl)
      | inr t ↦
          let r = find-keys k d e a later (rw (ap (λ n. n == k) here ∙ t) at f) in (r.0, rw t r.1)
    ]

filter_by-gone : (k : ℕ) (xs : List ℕ) → mem k (filter_by (λ i. not (i == k)) xs) ≡ false
filter_by-gone k [] = refl
filter_by-gone k (x ∷ xs) = elim (Bool-cases (x == k)) [
  | inl e ↦ rw e (filter_by-gone k xs)
  | inr e ↦ rw (e, e) (filter_by-gone k xs)
]

module _ (services : Services) where
  abbrev pub registration : ℕ → TrainingInfo → Option ℕ
  registration training_id info =
      services.register_model info.request.pipeline_id info.request.trigger_id training_id

  unlinked : ℕ → Server → Server
  unlinked training_id s = record s {
    final_models = filter_by (λ i. not (i == training_id)) s.final_models;
  }

  -- The answer for a training that is registered.
  store-known :
      (training_id : ℕ) (info : TrainingInfo) (p : Process) (s : Server)
      → find training_id s.training_dict ≡ some info
      → find training_id s.training_process_dict ≡ some p
      → ((store_final_model services training_id s ≡ ok (none, s))
          × ((p.alive ≡ true)
              ⊎ ((mem training_id s.final_models ≡ false)
                  ⊎ (registration training_id info ≡ none))))
        ⊎ ((m : ℕ) × (p.alive ≡ false)
            × (mem training_id s.final_models ≡ true)
            × (registration training_id info ≡ some m)
            × (store_final_model services training_id s ≡ ok (some m, unlinked training_id s)))
  unfolding store_final_model store_known store_file registered entry unlinked
  store-known training_id info p s known found = elim (Bool-cases p.alive) [
    | inl alive ↦ inl (simp (known, found, alive) refl, inl alive)
    | inr dead ↦ elim (Bool-cases (mem training_id s.final_models)) [
      | inl there ↦ elim (Option-cases (registration training_id info)) [
        | inl refused ↦ inl (simp (known, found, dead, there, refused) refl, inr (inr refused))
        | inr accepted ↦
            inr (
              accepted.0,
              dead,
              there,
              accepted.1,
              simp (known, found, dead, there, accepted.1) refl,
            )
      ]
      | inr gone ↦ inl (simp (known, found, dead, gone) refl, inr (inl gone))
    ]
  ]

  store-unlinked :
      (training_id : ℕ) (info : TrainingInfo) (p : Process) (s : Server)
      → find training_id s.training_dict ≡ some info
      → find training_id s.training_process_dict ≡ some p
      → p.alive ≡ false
      → store_final_model services training_id (unlinked training_id s)
        ≡ ok (none, unlinked training_id s)
  unfolding store_final_model store_known store_file entry unlinked
  store-unlinked training_id info p s known found dead =
      simp (known, found, dead, filter_by-gone training_id s.final_models) refl

  -- In a table whose dictionaries have the same ids, store_final_model answers. Either it refuses and
  -- changes nothing, and then the id is not registered, or its process is alive, or its file is not
  -- there, or the model storage does not take it. Or it answers the id that the model storage gives,
  -- its process has ended and its file was there, and a second call refuses and changes nothing.
  pub store_final_model-once :
      (training_id : ℕ) (s : Server)
      → IsValid s
      → ((store_final_model services training_id s ≡ ok (none, s))
          × ((find training_id s.training_dict ≡ none)
              ⊎ ((info : TrainingInfo) × (p : Process) × (find training_id s.training_dict
                    ≡ some info)
                  × (find training_id s.training_process_dict ≡ some p)
                  × ((p.alive ≡ true)
                      ⊎ ((mem training_id s.final_models ≡ false)
                          ⊎ (registration training_id info ≡ none))))))
        ⊎ ((info : TrainingInfo) × (p : Process) × (m : ℕ) × (s' : Server) × (find training_id
                s.training_dict
              ≡ some info)
            × (find training_id s.training_process_dict ≡ some p)
            × (p.alive ≡ false)
            × (mem training_id s.final_models ≡ true)
            × (registration training_id info ≡ some m)
            × (store_final_model services training_id s ≡ ok (some m, s'))
            × (store_final_model services training_id s' ≡ ok (none, s')))
  unfolding IsValid store_final_model store_known
  store_final_model-once training_id s h = elim (Option-cases (find training_id s.training_dict)) [
    | inl unknown ↦ inl (simp unknown refl, inl unknown)
    | inr (info, known) ↦
        let q = find-keys training_id s.training_dict s.training_process_dict info h.1 known in
        elim (store-known training_id info q.0 s known q.1) [
          | inl r ↦ inl (r.0, inr (info, q.0, known, q.1, r.1))
          | inr r ↦ inr (
            info,
            q.0,
            r.0,
            unlinked training_id s,
            known,
            q.1,
            r.1,
            r.2,
            r.3,
            r.4,
            store-unlinked training_id info q.0 s known q.1 r.1,
          )
        ]
  ]
