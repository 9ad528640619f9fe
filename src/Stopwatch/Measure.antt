-- ===== src/Stopwatch/Measure.antt =====
-- What a stopwatch measures, and when it refuses.
use Prim.Native.String.{String}
use text.Mathlib.TextPositions.{compare_refl}
use modyn.Stopwatch.{
  same_text, Measurements, lookup, insert, has, Stopwatch, start, get_or_zero, stop_started,
  stop_named, stop,
}
use modyn.Prelude.{
  if◌then◌else◌, Bool-cases, assertion_error, Result, ok, raise, ℕ, ◌+◌, ◌-◌, ◌≡◌, refl, ap, ◌∙◌,
  inl, inr, true, false, Option, none, some, [], ◌∷◌, arith,
}

pub same_text_refl : (s : String) → same_text s s ≡ true
same_text_refl s = rw (same_text, compare_refl s)

lookup-cons :
    (name : String) (value : ℕ) (entries : Measurements)
    → lookup name ((name, value) ∷ entries) ≡ some value
unfolding lookup
lookup-cons name value entries =
    ap (λ b. if b then some value else lookup name entries) (same_text_refl name)

pub lookup-insert :
    (name : String) (value : ℕ) (entries : Measurements)
    → lookup name (insert name value entries) ≡ some value
unfolding insert lookup
lookup-insert name value [] = lookup-cons name value []
lookup-insert name value ((key, old) ∷ entries) = elim (Bool-cases (same_text key name)) [
  | inl found ↦
      ap
        (λ b.
          lookup name
            (if b then (name, value) ∷ entries else (key, old) ∷ insert name value entries))
        found
      ∙ lookup-cons name value entries
  | inr other ↦
      ap
        (λ b.
          lookup name
            (if b then (name, value) ∷ entries else (key, old) ∷ insert name value entries))
        other
      ∙ skipped other
      ∙ lookup-insert name value entries
]
  where
    skipped :
        same_text key name ≡ false
        → lookup name ((key, old) ∷ insert name value entries)
          ≡ lookup name (insert name value entries)
    skipped other = ap (λ b. if b then some old else lookup name (insert name value entries)) other

has-some :
    (name : String) (value : ℕ) (entries : Measurements)
    → lookup name entries ≡ some value
    → has name entries ≡ true
unfolding has
has-some name value entries h = rw (has, h)

has-none :
    (name : String) (entries : Measurements) → lookup name entries ≡ none → has name entries ≡ false
unfolding has
has-none name entries h = rw (has, h)

-- A name that is measured already cannot be started again without `resume` or `overwrite`.
pub start-measured :
    (name : String) (value now : ℕ) (swt : Stopwatch)
    → lookup name swt.measurements ≡ some value
    → start name false false now swt ≡ raise assertion_error
unfolding start
start-measured name value now swt h =
    let measured : has name swt.measurements ≡ true = has-some name value _ h in rw measured

stop-running :
    (name : String) (started now : ℕ) (swt : Stopwatch)
    → lookup name swt.running_measurements ≡ some started
    → swt.last_started_measurement ≡ some name
    → (swt' : Stopwatch) × (stop none now swt
        ≡ ok (get_or_zero (lookup name swt.measurements) + now - started, swt'))
      × (lookup name swt'.measurements
          ≡ some (get_or_zero (lookup name swt.measurements) + now - started))
unfolding stop stop_named stop_started
stop-running name started now swt h last =
    (_, stop_last last ∙ ap (stop_started name now swt) h, lookup-insert name _ swt.measurements)
  where
    at_last : Option String → Result (ℕ × Stopwatch)
    at_last o = elim o [ none ↦ raise assertion_error | some s ↦ stop_named s now swt ]

    stop_last :
        swt.last_started_measurement ≡ some name → stop none now swt ≡ stop_named name now swt
    stop_last e = ap at_last e

-- A name that is neither measured nor running can be started. Stopped at a later time, the
-- measurement is the time in between, and the name cannot be started a second time.
pub start-stop :
    (name : String) (now later : ℕ) (swt : Stopwatch)
    → lookup name swt.measurements ≡ none
    → lookup name swt.running_measurements ≡ none
    → (swt' swt'' : Stopwatch) × (start name false false now swt ≡ ok swt')
      × (stop none later swt' ≡ ok (later - now, swt''))
      × ((again : ℕ) → start name false false again swt'' ≡ raise assertion_error)
unfolding start
start-stop name now later swt fresh idle =
    let (swt'', run, measured) =
      stop-running name now later swt' (lookup-insert name now swt.running_measurements) refl in
    (
      swt',
      swt'',
      starts,
      run ∙ ap (λ (n : ℕ). ok (n, swt'')) (rw fresh (omega arith)),
      λ again. start-measured name _ again swt'' measured,
    )
  where
    swt' : Stopwatch
    swt' = record {
      measurements = swt.measurements;
      running_measurements = insert name now swt.running_measurements;
      last_started_measurement = some name;
    }

    starts : start name false false now swt ≡ ok swt'
    starts =
        let not_measured : has name swt.measurements ≡ false = has-none name _ fresh in
        let not_running : has name swt.running_measurements ≡ false = has-none name _ idle in
        rw (not_measured, not_running)
