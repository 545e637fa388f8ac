-- ===== src/Cloud/Plane/Access.antt =====
-- The key test and the REST routes of Cloud/src/control_plane.py. Texts are lists of code points; a
-- command is any value, and the routes answer with it as it is.
use auto_robotic_arms.Base.{
  ℕ, ◌≡◌, ◌≢◌, ◌↔◌, ◌⊎◌, inl, inr, refl, subst, ap, Bool, true, false, not, ◌||◌, List, [], ◌∷◌,
  Option, none, some, if◌then◌else◌, text_eq, text_eq_sound, text_eq-same, Bool-cases,
}

-- "DEV_SECRET_KEY_123"
abbrev pub default_key : List ℕ
default_key =
    b'D' ∷ b'E' ∷ b'V' ∷ b'_' ∷ b'S' ∷ b'E' ∷ b'C' ∷ b'R' ∷ b'E' ∷ b'T' ∷ b'_' ∷ b'K' ∷ b'E' ∷ b'Y'
    ∷ b'_' ∷ b'1' ∷ b'2' ∷ b'3' ∷ []

-- `os.getenv("CONTROL_PLANE_API_KEY", ...)`: the default only where the variable is not set.
abbrev pub expected_key : Option (List ℕ) → List ℕ
expected_key none = default_key
expected_key (some value) = value

abbrev is_empty : List ℕ → Bool
is_empty [] = true
is_empty (_ ∷ _) = false

-- The key, or none for the 401; without the header, the API key is None.
unfoldable pub verify_api_key : Option (List ℕ) → Option (List ℕ) → Option (List ℕ)
verify_api_key env none = none
verify_api_key env (some api_key) =
    if is_empty api_key || not (text_eq api_key (expected_key env)) then none else some api_key

-- The answers of the routes.
pub data Response (Command : Type 0) : Type 0 where
  unauthorized healthy : Response Command
  command_received : Command → Response Command

module _ {Command : Type 0} where
  abbrev pub health_check : Response Command
  health_check = healthy

  -- The route's body, behind the dependency on the key.
  abbrev pub authenticated : Option (List ℕ) → Command → Response Command
  authenticated none command = unauthorized
  authenticated (some _) command = command_received command

  unfoldable pub manual_override : Option (List ℕ) → Option (List ℕ) → Command → Response Command
  manual_override env header command = authenticated (verify_api_key env header) command

verify_api_key-accepts :
    (env header : Option (List ℕ)) (key : List ℕ)
    → header ≡ some key
    → key ≢ []
    → key ≡ expected_key env
    → verify_api_key env header ≡ some key
unfolding verify_api_key
verify_api_key-accepts env header [] e full same = absurd (full refl)
verify_api_key-accepts env header (a ∷ key) e full same =
    let equal : text_eq (a ∷ key) (expected_key env) ≡ true =
      subst (λ k. text_eq (a ∷ key) k ≡ true) same (text_eq-same (a ∷ key)) in
    rw (e, equal) refl

-- What a key that is let in has.
verify_api_key-some :
    (env : Option (List ℕ)) (key : List ℕ)
    → (verify_api_key env (some key) ≡ none) ⊎ ((key ≡ expected_key env) × (key ≢ []))
unfolding verify_api_key
verify_api_key-some env [] = inl refl
verify_api_key-some env (a ∷ key) = elim (Bool-cases (text_eq (a ∷ key) (expected_key env))) [
  | inl same ↦ inr (text_eq_sound (a ∷ key) (expected_key env) same, λ e. cc)
  | inr other ↦ inl (rw other refl)
]

module _ {Command : Type 0} (env : Option (List ℕ)) (command : Command) where
  override_accepted :
      (header : Option (List ℕ))
      → header ≡ some (expected_key env)
      → expected_key env ≢ []
      → manual_override env header command ≡ command_received command
  unfolding manual_override
  override_accepted header e full =
      rw (verify_api_key-accepts env header (expected_key env) e full refl) refl

  override_cases :
      (header : Option (List ℕ))
      → (manual_override env header command ≡ unauthorized)
        ⊎ ((header ≡ some (expected_key env)) × (expected_key env ≢ []))
  unfolding manual_override verify_api_key
  override_cases none = inl refl
  override_cases (some key) = elim (verify_api_key-some env key) [
    | inl refused ↦ inl (ap (λ k. authenticated k command) refused)
    | inr (same, full) ↦ inr (ap (λ k. some k) same, subst (λ k. k ≢ []) same full)
  ]

  -- An override is executed exactly where the header carries the expected key and that key is not
  -- empty, and is answered by 401 else; where the variable is set to the empty text, no header
  -- helps.
  pub override_iff :
      (header : Option (List ℕ))
      → ((manual_override env header command ≡ command_received command)
          ↔ ((header ≡ some (expected_key env)) × (expected_key env ≢ [])))
        × ((manual_override env header command ≡ command_received command)
            ⊎ (manual_override env header command ≡ unauthorized))
  override_iff header = elim (override_cases header) [
    | inl refused ↦ (
      ((λ h. absurd (cc (h, refused))), λ (e, full). override_accepted header e full),
      inr refused,
    )
    | inr (e, full) ↦ (
      ((λ _. (e, full)), λ _. override_accepted header e full),
      inl (override_accepted header e full),
    )
  ]
