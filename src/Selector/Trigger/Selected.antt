-- ===== src/Selector/Trigger/Selected.antt =====
-- Which samples a trigger hands to the trainer when there is no limit.
use modyn.Selector.Engine.{SampleRow, Engine}
use modyn.Selector.Strategy.{Strategy, has_limit}
use modyn.Selector.Trigger.{
  Stored, Database, data_lengths, wanted, all_parts, tail_is_zero, get_data, on_trigger,
  store_partitions, lengths, finish_trigger, trigger,
}
use modyn.Selector.Trigger.Lengths.{data_lengths_lem}
use modyn.Selector.Backend.{get_pipeline_data}
use modyn.Selector.Strategy.Valid.{IsValid}
use modyn.Selector.Trigger.Wanted.{expected_keys, wanted_keys, wanted-expected}
use modyn.Prelude.{
  ◌==◌, Bool-cases, length, count_by, All, concat, sum, length-append, length-map, ok, ℕ, suc, ◌+◌,
  ◌≤◌, ◌≡◌, refl, sym, ap, ◌∙◌, inl, inr, Bool, true, false, not, ◌&&◌, none, some, List, [], ◌∷◌,
  ◌++◌, map, arith,
}

count_by-append :
    {A : Type 0} (p : A → Bool) (xs ys : List A)
    → count_by p (xs ++ ys) ≡ count_by p xs + count_by p ys
count_by-append p [] ys = omega arith
count_by-append p (x ∷ xs) ys = elim (Bool-cases (p x)) [
  | inl counted ↦ rw counted (omega (arith, count_by-append p xs ys))
  | inr other ↦ rw other (count_by-append p xs ys)
]

count_by-map :
    {A B : Type 0} (p : B → Bool) (f : A → B) (xs : List A)
    → count_by p (map f xs) ≡ count_by (λ x. p (f x)) xs
count_by-map p f [] = refl
count_by-map p f (x ∷ xs) = elim (Bool-cases (p (f x))) [
  | inl counted ↦ rw counted (ap suc (count_by-map p f xs))
  | inr other ↦ rw other (count_by-map p f xs)
]

module _ (engine : Engine) (s : Strategy) where
  -- The keys of what is stored.
  abbrev pub stored_keys : List (Stored engine.Weight) → List ℕ
  stored_keys stored = concat (map (λ part. map (λ sample. sample.0) part.training_samples) stored)

  -- A partition fits into memory, belongs to this trigger, and its files hold all of it.
  abbrev pub IsWhole : Stored engine.Weight → Type 0
  IsWhole part =
      (length part.training_samples ≤ s.maximum_keys_in_memory)
      × (part.trigger_id ≡ s.next_trigger_id)
      × (sum part.data_lengths ≡ length part.training_samples)

  keys_back :
      (keys : List ℕ)
      → map (λ (sample : ℕ × engine.Weight). sample.0) (map (λ key. (key, engine.one)) keys) ≡ keys
  keys_back [] = refl
  keys_back (k ∷ ks) = ap (λ l. k ∷ l) (keys_back ks)

  abbrev StoresAll : ℕ → List (List ℕ) → Type 0
  StoresAll partition parts =
      (stored : List (Stored engine.Weight)) × (store_partitions engine s partition
          (on_trigger engine s partition (all_parts engine s parts))
        ≡ (stored, none))
      × ((p : ℕ → Bool) → count_by p (stored_keys stored) ≡ count_by p (concat parts))
      × All IsWhole stored
      × (sum (lengths engine s stored) ≡ length (concat parts))
      × (length stored ≡ length parts)

  stores_all :
      (partition : ℕ) (parts : List (List ℕ))
      → All (λ part. length part ≤ s.maximum_keys_in_memory) parts
      → StoresAll partition parts
  unfolding store_partitions on_trigger all_parts
  stores_all partition [] h = ([], refl, λ p. refl, tt, refl, refl)
  stores_all partition (keys ∷ parts) h =
      let (stored, run, counts, whole, total, many) = stores_all (suc partition) parts h.1 in
      (
        first ∷ stored,
        rw run,
        λ p.
            count_by-append p _ (stored_keys stored)
            ∙ rw
                (
                  keys_back (engine.shuffle s.next_trigger_id partition keys),
                  engine.shuffle_count s.next_trigger_id partition keys p,
                  counts p,
                )
                (sym (count_by-append p keys (concat parts))),
        (
          (
            omega (arith, size, h.0),
            refl,
            (data_lengths_lem s.insertion_threads (length samples)).0,
          ),
          whole,
        ),
        omega (arith, size, total, length-append keys (concat parts)),
        ap suc many,
      )
    where
      samples : List (ℕ × engine.Weight)
      samples = map (λ key. (key, engine.one)) (engine.shuffle s.next_trigger_id partition keys)

      size : length samples ≡ length keys
      size =
          length-map (engine.shuffle s.next_trigger_id partition keys) (λ key. (key, engine.one))
          ∙ engine.shuffle_length s.next_trigger_id partition keys

      first : Stored engine.Weight
      first = record {
        pipeline_id = s.pipeline_id;
        trigger_id = s.next_trigger_id;
        partition_id = partition;
        training_samples = samples;
        data_lengths = data_lengths s.insertion_threads (length samples);
      }

  abbrev parts_of : List SampleRow → List (List ℕ)
  parts_of rows =
      get_pipeline_data engine s.pipeline_id s.maximum_keys_in_memory (wanted engine s) rows

  zero_tail : s.tail_triggers ≡ some 0 → tail_is_zero engine s ≡ true
  zero_tail e = ap (λ o. elim o [ none ↦ false | some tail ↦ tail == 0 ]) e

  get_data-no_limit :
      (rows : List SampleRow)
      → IsValid s
      → has_limit s ≡ false
      → get_data engine s rows ≡ all_parts engine s (parts_of rows)
  unfolding get_data
  get_data-no_limit rows valid no_limit = rw (agrees, no_limit)
    where
      agrees : (s.reset_after_trigger && not (tail_is_zero engine s)) ≡ false
      agrees = elim (Bool-cases s.reset_after_trigger) [
        | inl reset ↦
            ap (λ b. s.reset_after_trigger && not b) (zero_tail (valid.2 reset))
            ∙ ap (λ b. b && false) reset
        | inr keeps ↦ ap (λ b. b && not (tail_is_zero engine s)) keeps
      ]

  -- A trigger of a valid strategy without a limit does not raise, returns the next trigger id and
  -- raises it by one. The partitions that it stores hold, counted with repetitions, exactly the
  -- keys of the pipeline's samples that belong to the trigger: with resets those that were seen in
  -- it, with a tail of k > 0 those whose trigger's id plus k is at least its own, and otherwise all.
  -- Each partition fits into memory, its files hold all of it, and the number of keys that is
  -- returned is that of these samples. The samples in the database stay.
  pub trigger-no_limit :
      (db : Database engine.Weight)
      → IsValid s
      → has_limit s ≡ false
      → (stored : List (Stored engine.Weight)) × (db' : Database engine.Weight) × (trigger engine s
            db
          ≡ (
            ok (
              (s.next_trigger_id, length (expected_keys engine s db.samples), length stored),
              record s { next_trigger_id = suc s.next_trigger_id },
            ),
            db',
          ))
        × (db'.stored ≡ db.stored ++ stored)
        × (db'.samples ≡ db.samples)
        × All IsWhole stored
        × ((p : ℕ → Bool)
            → count_by p (stored_keys stored) ≡ count_by p (expected_keys engine s db.samples))
  unfolding trigger get_pipeline_data finish_trigger
  trigger-no_limit db valid no_limit =
      let (stored, run, counts, whole, total, many) = stores_all 0 (parts_of db.samples) (
        engine.partitions_size s.maximum_keys_in_memory (wanted_keys engine s db.samples)
          valid.0) in
      let same =
        engine.partitions_concat s.maximum_keys_in_memory (wanted_keys engine s db.samples)
        ∙ wanted-expected engine s db.samples in
      (
        stored,
        (finish_trigger engine s db (stored, none)).1,
        ap (finish_trigger engine s db) (
              ap (λ g. store_partitions engine s 0 (on_trigger engine s 0 g))
                (get_data-no_limit db.samples valid no_limit)
              ∙ run)
            ∙ ap
                (λ (n : ℕ). (
                  ok (
                    (s.next_trigger_id, n, length stored),
                    record s { next_trigger_id = suc s.next_trigger_id },
                  ),
                  (finish_trigger engine s db (stored, none)).1,
                ))
                (total ∙ ap length same),
        refl,
        refl,
        whole,
        λ p. counts p ∙ ap (count_by p) same,
      )
