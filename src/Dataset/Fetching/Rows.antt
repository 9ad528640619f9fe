-- ===== src/Dataset/Fetching/Rows.antt =====
-- The four lists of a container as one list of rows.
use modyn.Dataset.Fetching.{
  Answer, Container, Row, weight_of, found, known_weights, weights_of, add, extend, row_of, row_at,
  read_rows,
}
use modyn.Prelude.{
  length, get_elem?, take, drop, replicate, length-append, drop-nil, drop_cons, take_snoc,
  length-map, ok, of_bind, ok-inj, ℕ, zero, suc, ◌+◌, ◌≤◌, ◌<◌, ◌≡◌, refl, sym, ap, ◌∙◌, subst,
  Option, none, some, List, [], ◌∷◌, ◌++◌, map, arith,
}

longer {ℓ κ} :
    {A : Type ℓ} {B : Type κ} (xs ys : List A) (us vs : List B)
    → length xs ≡ length us
    → length ys ≡ length vs
    → length (xs ++ ys) ≡ length (us ++ vs)
longer xs ys us vs e f = omega (arith, e, f, length-append xs ys, length-append us vs)

-- A storage's answer has a sample and a label for each key.
unfoldable pub IsAnswer {ℓ} : {Sample : Type ℓ} → Answer Sample → Type 0
IsAnswer a = (length a.samples ≡ length a.keys) × (length a.labels ≡ length a.keys)

-- The weight that a key's row has.
unfoldable pub weight_for {κ} : {Weight : Type κ} → Option (List (ℕ × Weight)) → ℕ → Option Weight
weight_for none k = none
weight_for (some m) k = weight_of m k

module _ {ℓ κ} {Sample : Type ℓ} {Weight : Type κ} where
  unfoldable pub zip_rows :
      List ℕ → List Sample → List ℕ → List (Option Weight) → List (Row Sample Weight)
  zip_rows (k ∷ ks) (s ∷ ss) (l ∷ ls) (w ∷ ws) =
      record { key = k; sample = s; label = l; weight = w } ∷ zip_rows ks ss ls ws
  zip_rows [] ss ls ws = []
  zip_rows (k ∷ ks) [] ls ws = []
  zip_rows (k ∷ ks) (s ∷ ss) [] ws = []
  zip_rows (k ∷ ks) (s ∷ ss) (l ∷ ls) [] = []

  unfoldable pub container_rows : Container Sample Weight → List (Row Sample Weight)
  container_rows c = zip_rows c.keys c.samples c.labels c.weights

  -- The four lists have one length.
  unfoldable pub IsEven : Container Sample Weight → Type 0
  IsEven c =
      (length c.samples ≡ length c.keys)
      × (length c.labels ≡ length c.keys)
      × (length c.weights ≡ length c.keys)

  -- The rows that one answer stands for.
  unfoldable pub answer_rows : Option (List (ℕ × Weight)) → Answer Sample → List (Row Sample Weight)
  answer_rows m a = zip_rows a.keys a.samples a.labels (map (weight_for m) a.keys)

  pub zip_rows-append :
      (ks ks' : List ℕ) (ss ss' : List Sample) (ls ls' : List ℕ) (ws ws' : List (Option Weight))
      → length ss ≡ length ks
      → length ls ≡ length ks
      → length ws ≡ length ks
      → zip_rows (ks ++ ks') (ss ++ ss') (ls ++ ls') (ws ++ ws')
        ≡ zip_rows ks ss ls ws ++ zip_rows ks' ss' ls' ws'
  unfolding zip_rows
  zip_rows-append [] ks' [] ss' [] ls' [] ws' a b c = refl
  zip_rows-append (k ∷ ks) ks' (s ∷ ss) ss' (l ∷ ls) ls' (w ∷ ws) ws' a b c =
      ap (λ rs. record { key = k; sample = s; label = l; weight = w } ∷ rs)
        (zip_rows-append ks ks' ss ss' ls ls' ws ws' (omega (arith, a)) (omega (arith, b))
          (omega (arith, c)))
  zip_rows-append [] ks' (s ∷ ss) ss' ls ls' ws ws' a b c = absurd (omega (arith, a))
  zip_rows-append [] ks' [] ss' (l ∷ ls) ls' ws ws' a b c = absurd (omega (arith, b))
  zip_rows-append [] ks' [] ss' [] ls' (w ∷ ws) ws' a b c = absurd (omega (arith, c))
  zip_rows-append (k ∷ ks) ks' [] ss' ls ls' ws ws' a b c = absurd (omega (arith, a))
  zip_rows-append (k ∷ ks) ks' (s ∷ ss) ss' [] ls' ws ws' a b c = absurd (omega (arith, b))
  zip_rows-append (k ∷ ks) ks' (s ∷ ss) ss' (l ∷ ls) ls' [] ws' a b c = absurd (omega (arith, c))

  pub length-zip_rows :
      (ks : List ℕ) (ss : List Sample) (ls : List ℕ) (ws : List (Option Weight))
      → length ss ≡ length ks
      → length ls ≡ length ks
      → length ws ≡ length ks
      → length (zip_rows ks ss ls ws) ≡ length ks
  unfolding zip_rows
  length-zip_rows [] ss ls ws a b c = refl
  length-zip_rows (k ∷ ks) (s ∷ ss) (l ∷ ls) (w ∷ ws) a b c =
      ap suc (length-zip_rows ks ss ls ws (omega (arith, a)) (omega (arith, b)) (omega (arith, c)))
  length-zip_rows (k ∷ ks) [] ls ws a b c = absurd (omega (arith, a))
  length-zip_rows (k ∷ ks) (s ∷ ss) [] ws a b c = absurd (omega (arith, b))
  length-zip_rows (k ∷ ks) (s ∷ ss) (l ∷ ls) [] a b c = absurd (omega (arith, c))

  row_of-zip_rows :
      (ks : List ℕ) (ss : List Sample) (ls : List ℕ) (ws : List (Option Weight)) (i : ℕ)
      (r : Row Sample Weight) (rs : List (Row Sample Weight))
      → drop i (zip_rows ks ss ls ws) ≡ r ∷ rs
      → row_of (get_elem? ks i) (get_elem? ss i) (get_elem? ls i) (get_elem? ws i) ≡ ok r
  unfolding zip_rows row_of
  row_of-zip_rows (k ∷ ks) (s ∷ ss) (l ∷ ls) (w ∷ ws) zero r rs e = ap ok (cc e)
  row_of-zip_rows (k ∷ ks) (s ∷ ss) (l ∷ ls) (w ∷ ws) (suc i) r rs e =
      row_of-zip_rows ks ss ls ws i r rs e
  row_of-zip_rows [] ss ls ws i r rs e = cc (drop-nil i, e)
  row_of-zip_rows (k ∷ ks) [] ls ws i r rs e = cc (drop-nil i, e)
  row_of-zip_rows (k ∷ ks) (s ∷ ss) [] ws i r rs e = cc (drop-nil i, e)
  row_of-zip_rows (k ∷ ks) (s ∷ ss) (l ∷ ls) [] i r rs e = cc (drop-nil i, e)

  -- The row at an index, and the rows up to it.
  pub row_at_lem :
      (c : Container Sample Weight) (i : ℕ)
      → i < length (container_rows c)
      → (r : Row Sample Weight) × (row_at c i ≡ ok r)
        × (take (suc i) (container_rows c) ≡ take i (container_rows c) ++ r ∷ [])
  unfolding row_at container_rows
  row_at_lem c i h =
      let (r, e) = drop_cons i (container_rows c) h in
      (
        r,
        row_of-zip_rows c.keys c.samples c.labels c.weights i r _ e,
        take_snoc i (container_rows c) _ r e,
      )

  read_one :
      (c : Container Sample Weight) (i n : ℕ) (r : Row Sample Weight)
      (rs : List (Row Sample Weight))
      → row_at c i ≡ ok r
      → read_rows c (suc i) n ≡ ok rs
      → read_rows c i (suc n) ≡ ok (r ∷ rs)
  unfolding read_rows
  read_one c i n r rs e f = rw (e, f)

  -- Reading goes through the rows in order.
  pub read_rows_lem :
      (c : Container Sample Weight) (i n : ℕ)
      → i + n ≤ length (container_rows c)
      → read_rows c i n ≡ ok (take n (drop i (container_rows c)))
  unfolding read_rows row_at container_rows
  read_rows_lem c i zero h = refl
  read_rows_lem c i (suc n) h =
      let (r, e) = drop_cons i (container_rows c) (omega (arith, h)) in
      read_one c i n r (take n (drop (suc i) (container_rows c)))
        (row_of-zip_rows c.keys c.samples c.labels c.weights i r _ e)
        (read_rows_lem c (suc i) n (omega (arith, h)))
      ∙ ap (λ l. ok (take (suc n) l)) (sym e)

  pub length-container_rows :
      (c : Container Sample Weight) → IsEven c → length (container_rows c) ≡ length c.keys
  unfolding container_rows IsEven
  length-container_rows c h = length-zip_rows c.keys c.samples c.labels c.weights h.0 h.1 h.2

found_lem {κ} : {Weight : Type κ} (o w : Option Weight) → found o ≡ ok w → w ≡ o
unfolding found
found_lem none w e = cc e
found_lem (some v) w e = cc e

replicate_map {κ} :
    {Weight : Type κ} (ks : List ℕ)
    → ◌≡◌ {A = List (Option Weight)} (replicate (length ks) none) (map (weight_for none) ks)
unfolding weight_for
replicate_map [] = refl
replicate_map (k ∷ ks) = ap (λ l. none ∷ l) (replicate_map ks)

known_weights_lem {κ} :
    {Weight : Type κ} (m : List (ℕ × Weight)) (ks : List ℕ) (ws : List (Option Weight))
    → known_weights m ks ≡ ok ws
    → ws ≡ map (weight_of m) ks
unfolding known_weights found
known_weights_lem m [] ws e = cc e
known_weights_lem m (k ∷ ks) ws e =
    let (w, e1, e2) = of_bind (found (weight_of m k)) _ ws e in
    let (us, e3, e4) = of_bind (known_weights m ks) _ ws e2 in
    sym (ok-inj e4) ∙ cc (found_lem (weight_of m k) w e1, known_weights_lem m ks us e3)

pub weights_of_lem {κ} :
    {Weight : Type κ} (m : Option (List (ℕ × Weight))) (ks : List ℕ) (ws : List (Option Weight))
    → weights_of m ks ≡ ok ws
    → ws ≡ map (weight_for m) ks
unfolding weights_of weight_for
weights_of_lem none ks ws e = sym (ok-inj e) ∙ replicate_map ks
weights_of_lem (some m) ks ws e = known_weights_lem m ks ws e

module _ {ℓ κ} {Sample : Type ℓ} {Weight : Type κ} where
  extended :
      (m : Option (List (ℕ × Weight))) (a : Answer Sample) (c : Container Sample Weight)
      → IsEven c
      → IsAnswer a
      → (ws : List (Option Weight)) → ws ≡ map (weight_for m) a.keys
      → (container_rows (add c a ws) ≡ container_rows c ++ answer_rows m a)
        × IsEven (add c a ws)
        × (length (add c a ws).keys ≡ length c.keys + length a.keys)
  unfolding container_rows answer_rows IsEven IsAnswer add
  extended m a c h g ws e = (
    zip_rows-append c.keys a.keys c.samples a.samples c.labels a.labels c.weights ws h.0 h.1 h.2
        ∙ ap
            (λ us.
              zip_rows c.keys c.samples c.labels c.weights ++ zip_rows a.keys a.samples a.labels us)
            e,
    (
      longer c.samples a.samples c.keys a.keys h.0 g.0,
      longer c.labels a.labels c.keys a.keys h.1 g.1,
      longer c.weights ws c.keys a.keys h.2 (ap length e ∙ length-map a.keys (weight_for m)),
    ),
    length-append c.keys a.keys,
  )

  -- An answer that is added leaves the rows before it and adds its own.
  pub extend_lem :
      (m : Option (List (ℕ × Weight))) (a : Answer Sample) (c c' : Container Sample Weight)
      → IsEven c
      → IsAnswer a
      → extend m a c ≡ ok c'
      → (container_rows c' ≡ container_rows c ++ answer_rows m a)
        × IsEven c'
        × (length c'.keys ≡ length c.keys + length a.keys)
  unfolding extend container_rows answer_rows IsEven IsAnswer add
  extend_lem m a c c' h g e =
      let (ws, e1, e2) = of_bind (weights_of m a.keys) _ c' e in
      subst
        (λ v.
          (container_rows v ≡ container_rows c ++ answer_rows m a)
          × IsEven v
          × (length v.keys ≡ length c.keys + length a.keys))
        (ok-inj e2) (extended m a c h g ws (weights_of_lem m a.keys ws e1))
