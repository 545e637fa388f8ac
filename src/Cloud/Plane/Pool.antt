-- ===== src/Cloud/Plane/Pool.antt =====
-- Whom a broadcast reaches, and whom it drops from the pool.
use auto_robotic_arms.Base.{
  ℕ, ◌≡◌, ◌≢◌, refl, ap, sym, ◌∙◌, Bool, true, false, List, [], ◌∷◌, ◌++◌, append_assoc, Option,
  some, arith, ◌==◌, if◌then◌else◌, All, All-append, Distinct,
}
use auto_robotic_arms.Python.{ok}
use auto_robotic_arms.Cloud.Plane.{
  Delivery, delivered, lagging, failed, Meeting, remove, disconnect, happen, Broadcast, attempted,
  broadcast_loop, broadcast_telemetry,
}

-- None of `kept` is a member of `xs`.
abbrev Apart : List ℕ → List ℕ → Type 0
Apart kept xs = All (λ x. All (λ k. k ≢ x) kept) xs

module _ (meet : ℕ → Meeting) where
  abbrev keeps : Delivery → Bool
  keeps lagging = false
  keeps _ = true

  -- The clients whose send returned.
  abbrev pub reached : List ℕ → List ℕ
  reached [] = []
  reached (c ∷ rest) = let more = reached rest in if keeps (meet c).delivery then c ∷ more else more

  -- A client that neither fails with a foreign exception nor sees the pool change meanwhile.
  abbrev pub IsCalm : ℕ → Type 0
  IsCalm c = ((meet c).meanwhile ≡ []) × ((meet c).delivery ≢ failed)

  remove-middle :
      (c : ℕ) (kept rest : List ℕ)
      → All (λ k. k ≢ c) kept
      → remove c (kept ++ c ∷ rest) ≡ kept ++ rest
  unfolding remove
  remove-middle c [] rest h = let same : (c == c) ≡ true = ground arith in rw same
  remove-middle c (k ∷ kept) rest h =
      let other : (k == c) ≡ false = ground (arith, h.0) in
      rw other (ap (λ t. k ∷ t) (remove-middle c kept rest h.1))

  loop-delivered :
      (c : ℕ) (rest pool : List ℕ)
      → (meet c).meanwhile ≡ []
      → (meet c).delivery ≡ delivered
      → broadcast_loop meet (c ∷ rest) pool ≡ attempted meet c (broadcast_loop meet rest pool)
  unfolding broadcast_loop happen
  loop-delivered c rest pool quiet e = rw (quiet, e) refl

  loop-lagging :
      (c : ℕ) (rest pool : List ℕ)
      → (meet c).meanwhile ≡ []
      → (meet c).delivery ≡ lagging
      → broadcast_loop meet (c ∷ rest) pool
        ≡ attempted meet c (broadcast_loop meet rest (remove c pool))
  unfolding broadcast_loop happen disconnect
  loop-lagging c rest pool quiet e = rw (quiet, e) refl

  -- The end of a loop that met no foreign exception.
  abbrev finished : List ℕ → List ℕ → Broadcast
  finished kept rest = record { result = ok tt; pool = kept ++ reached rest; attempts = rest }

  Apart-more :
      (c : ℕ) (kept rest : List ℕ)
      → All (λ y. y ≢ c) rest
      → Apart kept rest
      → Apart (kept ++ c ∷ []) rest
  Apart-more c kept [] fresh apart = tt
  Apart-more c kept (x ∷ rest) fresh apart = (
    All-append (λ k. k ≢ x) kept (c ∷ []) apart.0 ((λ e. fresh.0 (sym e)), tt),
    Apart-more c kept rest fresh.1 apart.1,
  )

  loop-calm :
      (rest kept : List ℕ)
      → All IsCalm rest
      → Apart kept rest
      → Distinct rest
      → broadcast_loop meet rest (kept ++ rest) ≡ finished kept rest
  loop-calm [] kept calm apart distinct = unfold broadcast_loop in refl
  loop-calm (c ∷ rest) kept calm apart distinct =
      go (λ k h. loop-calm rest k calm.1 h distinct.1) (meet c).delivery refl
    where
      go :
          ((k : List ℕ) → Apart k rest → broadcast_loop meet rest (k ++ rest) ≡ finished k rest)
          → (d : Delivery) → (meet c).delivery ≡ d
          → broadcast_loop meet (c ∷ rest) (kept ++ c ∷ rest) ≡ finished kept (c ∷ rest)
      go again failed e = absurd (calm.0.1 e)
      go again delivered e =
          loop-delivered c rest (kept ++ c ∷ rest) calm.0.0 e
          ∙ ap (λ p. attempted meet c (broadcast_loop meet rest p))
              (sym (append_assoc kept (c ∷ []) rest))
          ∙ ap (attempted meet c)
              (again (kept ++ c ∷ []) (Apart-more c kept rest distinct.0 apart.1))
          ∙ rw e (
              ap (λ p. record { result = ok tt; pool = p; attempts = c ∷ rest })
                (append_assoc kept (c ∷ []) (reached rest)))
      go again lagging e =
          loop-lagging c rest (kept ++ c ∷ rest) calm.0.0 e
          ∙ ap (λ p. attempted meet c (broadcast_loop meet rest p))
              (remove-middle c kept rest apart.0)
          ∙ ap (attempted meet c) (again kept apart.1)
          ∙ rw e refl

  all-Apart : (xs : List ℕ) → Apart [] xs
  all-Apart [] = tt
  all-Apart (x ∷ xs) = (tt, all-Apart xs)

  module _ {Message : Type 0} (decode : List ℕ → Option Message) where
    -- A blob that decodes is sent to every client of the pool, each once and in the order of the
    -- pool, and the pool then holds exactly the clients whose send returned: where no client stands
    -- twice in it, nobody joins or leaves meanwhile and no send raises a foreign exception.
    pub broadcast_reaches :
        (blob pool : List ℕ) (m : Message)
        → decode blob ≡ some m
        → Distinct pool
        → All IsCalm pool
        → broadcast_telemetry decode meet blob pool
          ≡ record { result = ok tt; pool = reached pool; attempts = pool }
    unfolding broadcast_telemetry
    broadcast_reaches blob [] m decoded distinct calm = refl
    broadcast_reaches blob (c ∷ rest) m decoded distinct calm =
        rw decoded (loop-calm (c ∷ rest) [] calm (all-Apart (c ∷ rest)) distinct)
