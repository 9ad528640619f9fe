-- ===== src/Dataset/Stream/Unprefetched.antt =====
-- A partition that is fetched in the reading process, beside one that is fetched ahead.
use modyn.Dataset.Fetching.{
  Answer, Container, optional_map, empty_container, extend_all, read_rows,
  fetch_partition_noprefetch,
}
use modyn.Dataset.Fetching.Rows.{
  IsAnswer, zip_rows, container_rows, IsEven, answer_rows, read_rows_lem, length-container_rows,
  extend_lem,
}
use modyn.Dataset.Stream.{finished, Stream, new_stream, Reach}
use modyn.Dataset.Stream.Invariant.{all_rows}
use modyn.Dataset.Stream.Serving.{IsKnown, extend-ok}
use modyn.Dataset.Stream.Delivery.{yielded-all_rows}
use modyn.Prelude.{
  length, All, take-all, ok, ◌>>=◌, ℕ, ◌≡◌, refl, sym, ap, ◌∙◌, Option, List, [], ◌∷◌, ◌++◌,
  append-nil, append_assoc, arith,
}

module _ {ℓ κ} {Sample : Type ℓ} {Weight : Type κ} (m : Option (List (ℕ × Weight))) where
  extend_all_lem :
      (answers : List (Answer Sample)) (c : Container Sample Weight)
      → IsEven c
      → All IsAnswer answers
      → All (IsKnown m) answers
      → (c' : Container Sample Weight) × (extend_all m answers c ≡ ok c')
        × IsEven c'
        × (container_rows c' ≡ container_rows c ++ all_rows m answers)
  unfolding extend_all all_rows
  extend_all_lem [] c v h k = (c, refl, v, sym (append-nil (container_rows c)))
  extend_all_lem (a ∷ answers) c v h k =
      let (c', e) = extend-ok m a c k.0 in
      let (rows, v', _) = extend_lem m a c c' v h.0 e in
      let (d, f, w, rows') = extend_all_lem answers c' v' h.1 k.1 in
      (
        d,
        ap (λ r. r >>= λ c. extend_all m answers c) e ∙ f,
        w,
        rows'
            ∙ ap (λ r. r ++ all_rows m answers) rows
            ∙ append_assoc (container_rows c) (answer_rows m a) (all_rows m answers),
      )

  read_all :
      (c : Container Sample Weight)
      → IsEven c
      → read_rows c 0 (length c.keys) ≡ ok (container_rows c)
  read_all c v =
      let e = length-container_rows c v in
      read_rows_lem c 0 (length c.keys) (omega (arith, e))
      ∙ ap ok (take-all (length c.keys) (container_rows c) (omega (arith, e)))

module _ {ℓ κ} {Sample : Type ℓ} {Weight : Type κ} where
  empty_container_lem :
      IsEven (empty_container {Sample = Sample} {Weight = Weight})
      × (container_rows (empty_container {Sample = Sample} {Weight = Weight}) ≡ [])
  unfolding empty_container container_rows zip_rows IsEven
  empty_container_lem = ((refl, refl, refl), refl)

  -- A generator that has finished a partition fetched ahead has yielded exactly what is yielded
  -- without prefetching, for the same keys, weights and answers, when every answer has as many
  -- samples and labels as keys and names only keys that were asked for.
  pub fetch_partition_noprefetch-yielded :
      (keys : List ℕ) (weights : Option (List Weight)) (m : Option (List (ℕ × Weight)))
      (answers : List (Answer Sample)) (s : Stream Sample Weight)
      → optional_map keys weights ≡ ok m
      → All IsAnswer answers
      → All (IsKnown m) answers
      → Reach m (new_stream answers) s
      → s.reader ≡ finished
      → fetch_partition_noprefetch 0 keys weights answers ≡ ok s.yielded
  unfolding fetch_partition_noprefetch
  fetch_partition_noprefetch-yielded keys weights m answers s e h k r d =
      let start = empty_container_lem in
      let (rest, f, g) = yielded-all_rows m answers s h r in
      let (c, ext, v, rows) = extend_all_lem m answers empty_container start.0 h k in
      ap
        (λ o.
          o >>= λ m. extend_all m answers empty_container >>= λ c. read_rows c 0 (length c.keys))
        e
      ∙ ap (λ o. o >>= λ c. read_rows c 0 (length c.keys)) ext
      ∙ read_all m c v
      ∙ ap ok (
          rows
          ∙ ap (λ l. l ++ all_rows m answers) start.1
          ∙ sym f
          ∙ ap (λ l. s.yielded ++ l) (g d)
          ∙ append-nil s.yielded)
