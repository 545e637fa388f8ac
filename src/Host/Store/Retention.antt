-- ===== src/Host/Store/Retention.antt =====
-- What a call of `log_telemetry_state` and its pruning make of the table.
use auto_robotic_arms.Base.{
  ℕ, zero, suc, ◌+◌, ◌≤◌, ◌<◌, ◌≡◌, refl, ap, sym, subst, ◌∙◌, ◌⊎◌, inl, inr, true, List, [], ◌∷◌,
  ◌++◌, Option, none, some, arith, ltb, ◌==◌, length, length-append, length-drop, take, drop, map,
  Bool-cases,
}
use Prim.Native.String.{String}
use auto_robotic_arms.Joints.{Angles}
use auto_robotic_arms.Floats.{Floats}
use auto_robotic_arms.Host.Store.{
  TelemetryRecord, delete_id, delete_ids, prune_old_telemetry, next_id, telemetry_record,
  log_telemetry_state,
}

drop-append {ℓ} :
    {A : Type ℓ} (n : ℕ) (xs ys : List A) → n ≤ length xs → drop n (xs ++ ys) ≡ drop n xs ++ ys
drop-append zero xs ys h = refl
drop-append (suc n) [] ys h = absurd (omega arith)
drop-append (suc n) (x ∷ xs) ys h = drop-append n xs ys (omega arith)

module _ (f : Floats) where
  delete_id-first :
      (r : TelemetryRecord f) (rows : List (TelemetryRecord f)) → delete_id f r.id (r ∷ rows) ≡ rows
  unfolding delete_id
  delete_id-first r rows = let same : (r.id == r.id) ≡ true = ground arith in rw same

  -- The oldest rows, deleted by their ids one by one.
  delete_ids-oldest :
      (n : ℕ) (rows : List (TelemetryRecord f))
      → delete_ids f (map (λ r. r.id) (take n rows)) rows ≡ drop n rows
  unfolding delete_ids
  delete_ids-oldest zero rows = refl
  delete_ids-oldest (suc n) [] = refl
  delete_ids-oldest (suc n) (r ∷ rows) =
      ap (delete_ids f (map (λ r. r.id) (take n rows))) (delete_id-first r rows)
      ∙ delete_ids-oldest n rows

  prune_old_telemetry-cases :
      (rows : List (TelemetryRecord f))
      → ((length rows ≤ 50_000) × (prune_old_telemetry f rows ≡ rows))
        ⊎ ((50_000 < length rows) × (prune_old_telemetry f rows ≡ drop 5_000 rows))
  unfolding prune_old_telemetry
  prune_old_telemetry-cases rows = elim (Bool-cases (ltb 50_000 (length rows))) [
    | inl over ↦ inr (ground arith, rw over (delete_ids-oldest 5_000 rows))
    | inr under ↦ inl (ground arith, rw under refl)
  ]

  -- A call stores its row as the newest. The rows before it are all kept while fewer than 50,000
  -- are there, and else all but the oldest 5,000; their order stays.
  pub log_outcome :
      (target : f.Float × f.Float × f.Float) (angles : Option Angles) (status checksum : String)
      (rows : List (TelemetryRecord f))
      → let row = telemetry_record f target angles status checksum (next_id f rows) in
        let rows' = log_telemetry_state f target angles status checksum rows in
        ((length rows < 50_000) × (rows' ≡ rows ++ row ∷ []))
        ⊎ ((50_000 ≤ length rows) × (rows' ≡ drop 5_000 rows ++ row ∷ []))
  unfolding log_telemetry_state
  log_outcome target angles status checksum rows =
      let row = telemetry_record f target angles status checksum (next_id f rows) in
      let longer = length-append {0} rows (row ∷ []) in
      elim (prune_old_telemetry-cases (rows ++ row ∷ [])) [
        | inl (under, same) ↦ inl (omega (arith, longer), same)
        | inr (over, cut) ↦
            let full : 50_000 ≤ length rows = omega (arith, longer) in
            inr (full, cut ∙ drop-append 5_000 rows (row ∷ []) (omega arith))
      ]

  -- The ids rise, from `low` on.
  abbrev pub Rises : ℕ → List (TelemetryRecord f) → Type 0
  Rises low [] = Unit
  Rises low (r ∷ rows) = (low ≤ r.id) × Rises (r.id + 1) rows

  Rises-le :
      (low low' : ℕ) (rows : List (TelemetryRecord f))
      → low' ≤ low
      → Rises low rows
      → Rises low' rows
  Rises-le low low' [] h rises = tt
  Rises-le low low' (r ∷ rows) h rises = (omega arith, rises.1)

  Rises-drop :
      (n low : ℕ) (rows : List (TelemetryRecord f)) → Rises low rows → Rises low (drop n rows)
  Rises-drop zero low rows h = h
  Rises-drop (suc n) low [] h = tt
  Rises-drop (suc n) low (r ∷ rows) h =
      Rises-le (r.id + 1) low (drop n rows) (omega arith) (Rises-drop n (r.id + 1) rows h.1)

  Rises-next_id :
      (low : ℕ) (r : TelemetryRecord f) (rows : List (TelemetryRecord f))
      → Rises low (r ∷ rows)
      → low < next_id f (r ∷ rows)
  unfolding next_id
  Rises-next_id low r [] h = omega arith
  Rises-next_id low r (q ∷ rows) h = omega (arith, Rises-next_id (r.id + 1) q rows h.1)

  Rises-append :
      (low : ℕ) (rows : List (TelemetryRecord f)) (row : TelemetryRecord f)
      → Rises low rows
      → low ≤ row.id
      → next_id f rows ≤ row.id
      → Rises low (rows ++ row ∷ [])
  unfolding next_id
  Rises-append low [] row h le next = (le, tt)
  Rises-append low (r ∷ []) row h le next = (h.0, (next, tt))
  Rises-append low (r ∷ q ∷ rows) row h le next = (
    h.0,
    Rises-append (r.id + 1) (q ∷ rows) row h.1 (omega (arith, Rises-next_id (r.id + 1) q rows h.1))
        next,
  )

  -- A table within the limit, with rising ids.
  pub record IsStore (rows : List (TelemetryRecord f)) : Type 0 where
    pub bounded : length rows ≤ 50_000
    pub rising : Rises 1 rows

  prune_old_telemetry-IsStore :
      (rows : List (TelemetryRecord f))
      → length rows ≤ 50_001
      → Rises 1 rows
      → IsStore (prune_old_telemetry f rows)
  prune_old_telemetry-IsStore rows h rising = elim (prune_old_telemetry-cases rows) [
    | inl (under, same) ↦ subst IsStore (sym same) (record { bounded = under; rising = rising })
    | inr (over, cut) ↦ subst IsStore (sym cut) (record {
      bounded = omega (arith, length-drop {0} 5_000 rows);
      rising = Rises-drop 5_000 1 rows rising;
    })
  ]

  first_id : (rows : List (TelemetryRecord f)) → Rises 1 rows → 1 ≤ next_id f rows
  first_id [] h = unfold next_id in (omega arith)
  first_id (r ∷ rows) h = omega (arith, Rises-next_id 1 r rows h)

  telemetry_record-id :
      (target : f.Float × f.Float × f.Float) (angles : Option Angles) (status checksum : String)
      (id : ℕ)
      → (telemetry_record f target angles status checksum id).id ≡ id
  telemetry_record-id target none status checksum id = refl
  telemetry_record-id target (some a) status checksum id = refl

  -- A call keeps the table within 50,000 rows and its ids rising strictly from 1 on.
  pub log_telemetry_state-IsStore :
      (target : f.Float × f.Float × f.Float) (angles : Option Angles) (status checksum : String)
      (rows : List (TelemetryRecord f))
      → IsStore rows
      → IsStore (log_telemetry_state f target angles status checksum rows)
  unfolding log_telemetry_state
  log_telemetry_state-IsStore target angles status checksum rows h =
      let row = telemetry_record f target angles status checksum (next_id f rows) in
      let id = telemetry_record-id target angles status checksum (next_id f rows) in
      let positive = first_id rows h.rising in
      prune_old_telemetry-IsStore (rows ++ row ∷ [])
        (omega (arith, length-append {0} rows (row ∷ []), h.bounded))
        (Rises-append 1 rows row h.rising (omega (arith, id, positive)) (omega (arith, id)))
