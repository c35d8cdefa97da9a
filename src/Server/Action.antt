-- ===== src/Server/Action.antt =====
-- Handlers read and write the server's state, and may panic: what was written before stays.
use ad_nope.Prelude.{Outcome, returns, panics}

abbrev pub Action {ℓ} : Type ℓ → Type ℓ → Type ℓ
Action S A = S → Outcome A × S

module _ {ℓ} {S A : Type ℓ} where
  abbrev pub pure : A → Action S A
  pure a s = (returns a, s)

  abbrev pub panic : Action S A
  panic s = (panics, s)

  abbrev pub gets : (S → A) → Action S A
  gets f s = (returns (f s), s)

  abbrev pub lift : Outcome A → Action S A
  lift o s = (o, s)

module _ {ℓ} {S A B : Type ℓ} where
  abbrev pub resume_with : Outcome A → S → (A → Action S B) → Outcome B × S
  resume_with (returns a) s f = f a s
  resume_with panics s f = (panics, s)

  infixl 5 ◌>>=◌ ◌>>◌
  abbrev pub ◌>>=◌ : Action S A → (A → Action S B) → Action S B
  ◌>>=◌ m f s = resume_with (m s).0 (m s).1 f

  abbrev pub ◌>>◌ : Action S A → Action S B → Action S B
  m >> n = m >>= λ _. n
