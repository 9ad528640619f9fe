-- ===== src/Selector/Trigger/Wanted.antt =====
-- Which rows of the database a trigger asks for.
use modyn.Selector.Engine.{SampleRow, Engine}
use modyn.Selector.Strategy.{Strategy}
use modyn.Selector.Trigger.{wanted}
use modyn.Selector.Backend.{since_trigger, in_trigger, always}
use modyn.Prelude.{
  ltb, leb, ◌==◌, if◌then◌else◌, filter_by, ℕ, zero, suc, ◌+◌, ◌-◌, ◌≡◌, refl, ap, fun_ext, Bool,
  true, false, ◌&&◌, Option, none, some, List, map, arith,
}

-- Whether a sample seen in the trigger `seen` belongs to the next one: with resets it was seen in
-- that one, with a tail of one or more in one of as many triggers before it or later.
abbrev pub belongs : Bool → Option ℕ → ℕ → ℕ → Bool
belongs true tail next seen = seen == next
belongs false none next seen = true
belongs false (some zero) next seen = true
belongs false (some (suc k)) next seen = leb next (seen + suc k)

module _ (engine : Engine) (s : Strategy) where
  -- The keys of the pipeline's samples that belong to the next trigger.
  abbrev pub expected_keys : List SampleRow → List ℕ
  expected_keys rows =
      map (λ r. r.sample_key)
        (filter_by
          (λ r.
            (r.pipeline_id == s.pipeline_id)
            && belongs s.reset_after_trigger s.tail_triggers s.next_trigger_id r.seen_in_trigger_id)
          rows)

  -- The keys of the rows that the strategy asks for.
  abbrev pub wanted_keys : List SampleRow → List ℕ
  wanted_keys rows =
      map (λ r. r.sample_key)
        (filter_by (λ r. (r.pipeline_id == s.pipeline_id) && wanted engine s r) rows)

  wanted-belongs :
      (r : SampleRow)
      → wanted engine s r
        ≡ belongs s.reset_after_trigger s.tail_triggers s.next_trigger_id r.seen_in_trigger_id
  unfolding wanted
  wanted-belongs r = chosen s.reset_after_trigger s.tail_triggers s.next_trigger_id
    where
      chosen :
          (reset : Bool) (o : Option ℕ) (next : ℕ)
          → (if reset then in_trigger next else elim o [
            | none ↦ always
            | some tail ↦ if ltb 0 tail then since_trigger (next - tail) else always
          ])
              r
            ≡ belongs reset o next r.seen_in_trigger_id
      chosen true o next = refl
      chosen false none next = refl
      chosen false (some zero) next = refl
      chosen false (some (suc k)) next = ground arith

  pub wanted-expected : (rows : List SampleRow) → wanted_keys rows ≡ expected_keys rows
  wanted-expected rows =
      ap
        (λ p.
          map (λ (r : SampleRow). r.sample_key)
            (filter_by (λ (r : SampleRow). (r.pipeline_id == s.pipeline_id) && p r) rows))
        (fun_ext wanted-belongs)
