-- ===== src/Selector/Trigger/Limits.antt =====
-- A trigger with a limit and more than one partition.
use modyn.Selector.Engine.{SampleRow, Engine}
use modyn.Selector.Backend.{get_pipeline_data}
use modyn.Selector.Strategy.{Strategy, has_limit}
use modyn.Selector.Trigger.{
  Database, raises, yields, wanted, sample_down, sample_parts, tail_is_zero, get_data, on_trigger,
  store_partitions, created, finish_trigger, trigger,
}
use modyn.Stopwatch.{lookup, insert, has, new_stopwatch, start, stop_started, stop_named, stop}
use modyn.Prelude.{
  ltb, ◌==◌, length, length-append, assertion_error, raise, ℕ, ◌+◌, ◌≡◌, refl, ap, ◌∙◌, true, false,
  not, ◌&&◌, none, some, List, ◌∷◌,
}

module _ (engine : Engine) (s : Strategy) where
  -- The stopwatch of the loop is not reset between the partitions.
  sample_parts-two :
      (first second : List ℕ) (parts : List (List ℕ))
      → sample_parts engine s new_stopwatch 0 (first ∷ second ∷ parts)
        ≡ yields (sample_down engine s 0 first) (raises assertion_error)
  unfolding sample_parts new_stopwatch start stop stop_named stop_started lookup insert has
  sample_parts-two first second parts = refl

  get_data-sampled :
      (rows : List SampleRow) (parts : List (List ℕ))
      → s.reset_after_trigger ≡ true
      → s.tail_triggers ≡ some 0
      → has_limit s ≡ true
      → get_pipeline_data engine s.pipeline_id s.maximum_keys_in_memory (wanted engine s) rows
        ≡ parts
      → get_data engine s rows ≡ sample_parts engine s new_stopwatch 0 parts
  unfolding get_data
  get_data-sampled rows parts reset no_tail limited same = rw (agrees, limited, no_keep, same)
    where
      agrees : (s.reset_after_trigger && not (tail_is_zero engine s)) ≡ false
      agrees =
          ap (λ o. s.reset_after_trigger && not (elim o [ none ↦ false | some tail ↦ tail == 0 ]))
            no_tail
          ∙ ap (λ b. b && false) reset

      no_keep :
          (not s.reset_after_trigger
            && elim s.tail_triggers [ none ↦ true | some tail ↦ not (ltb 0 tail) ])
          ≡ false
      no_keep =
          ap (λ b. not b && elim s.tail_triggers [ none ↦ true | some tail ↦ not (ltb 0 tail) ])
            reset

  -- With a limit and resets, a trigger whose samples fill two partitions or more raises an
  -- AssertionError: the measurement "sample_time" is started a second time without `overwrite`. One
  -- partition is stored and the row of the trigger is created, but neither the numbers of the
  -- trigger nor the rows of its partitions are written.
  pub trigger-two_partitions :
      (db : Database engine.Weight) (first second : List ℕ) (parts : List (List ℕ))
      → s.reset_after_trigger ≡ true
      → s.tail_triggers ≡ some 0
      → has_limit s ≡ true
      → get_pipeline_data engine s.pipeline_id s.maximum_keys_in_memory (wanted engine s) db.samples
        ≡ first ∷ second ∷ parts
      → (db' : Database engine.Weight) × (trigger engine s db ≡ (raise assertion_error, db'))
        × (length db'.stored ≡ length db.stored + 1)
        × (db'.triggers ≡ created engine s db.triggers)
        × (db'.partitions ≡ db.partitions)
  unfolding trigger finish_trigger store_partitions on_trigger
  trigger-two_partitions db first second parts reset no_tail limited same = (
    _,
    ap (λ g. finish_trigger engine s db (store_partitions engine s 0 (on_trigger engine s 0 g)))
        (get_data-sampled db.samples _ reset no_tail limited same
          ∙ sample_parts-two first second parts),
    length-append db.stored _,
    refl,
    refl,
  )
