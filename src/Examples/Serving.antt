-- ===== src/Examples/Serving.antt =====
-- Concrete runs of the selector with its cache.
use modyn.SelectorService.{
  Service, find, is_in, Selector, new_selector, all_partitions, cached, cache_trigger, on_record,
  after_trigger, after_inform, inform_some, inform_data_and_trigger,
}
use modyn.SelectorService.Cached.{all_answers, get_sample_keys_and_weights-workers}
use modyn.SelectorService.Kept.{Ends, inform_data_and_trigger-Ends}
use modyn.Prelude.{
  ltb, if◌then◌else◌, assertion_error, ok, raise, ℕ, suc, ◌≡◌, refl, none, [], ◌∷◌, arith,
}

-- A strategy that counts its triggers, each of which has one partition with two samples.
abbrev counting : Service ℕ
counting = record {
  State = ℕ;
  inform_data = λ keys timestamps labels s. (ok tt, s);
  trigger = λ s. (ok (s, 2, 1), suc s);
  get_trigger_partition_keys =
      λ s t p worker. if ltb t s then ok (t ∷ 6 ∷ []) else raise assertion_error;
}

abbrev triggered : Selector counting
triggered = record {
  num_workers = 2;
  maximum_keys_in_cache = 10;
  current_keys_in_cache = 2;
  trigger_cache = (0, (0 ∷ 6 ∷ []) ∷ []) ∷ [];
  trigger_size_cache = (0, 2) ∷ [];
  trigger_partition_cache = (0, 1) ∷ [];
  state = 1;
}

first_trigger :
    inform_data_and_trigger counting (8 ∷ []) (1 ∷ []) (0 ∷ []) (new_selector counting 2 10 0)
    ≡ (ok 0, triggered)
unfolding inform_data_and_trigger inform_some after_inform after_trigger on_record cached
    cache_trigger all_partitions new_selector is_in
first_trigger = refl

inform_data_and_trigger-Ends_example :
    Ends counting triggered (inform_data_and_trigger counting (8 ∷ []) (1 ∷ []) (0 ∷ []) triggered)
inform_data_and_trigger-Ends_example =
    inform_data_and_trigger-Ends counting (8 ∷ []) (1 ∷ []) (0 ∷ []) triggered (omega arith)

get_sample_keys_and_weights-workers_example :
    all_answers counting (λ trigger_id. none) 0 0 triggered 2 ≡ ok (0 ∷ 6 ∷ [])
unfolding find is_in
get_sample_keys_and_weights-workers_example =
    get_sample_keys_and_weights-workers counting (λ trigger_id. none) 0 0 1 ((0 ∷ 6 ∷ []) ∷ [])
      (0 ∷ 6 ∷ []) triggered refl refl refl (omega arith) refl (omega arith)
