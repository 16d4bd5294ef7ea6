-- ===== src/Action/Laws.antt =====
-- What follows from how an action ends, and what actions keep.
use nexusflow_backend.Prelude.{Bool, true, false, Option, none, some, ◌≡◌, refl, subst}
use nexusflow_backend.Action.{
  HttpError, Result, ok, err, Action, continue, throw_if, or_throw, lift, pure, throw, ◌>>=◌, ◌>>◌,
}

module _ {S A B : Type 0} where
  continue-ok :
      (r : Result A × S) (f : A → Action S B) (s' : S) {b : B}
      → continue r.0 f r.1 ≡ (ok b, s')
      → (a : A) × (s : S) × (r ≡ (ok a, s)) × (f a s ≡ (ok b, s'))
  continue-ok (ok a, s) f s' h = (a, s, refl, h)
  continue-ok (err e, s) f s' h = absurd (cc)

  -- An action that answers went through both of its parts.
  pub >>=-ok :
      (m : Action S A) (f : A → Action S B) (s s' : S) {b : B}
      → (m >>= f) s ≡ (ok b, s')
      → (a : A) × (s1 : S) × (m s ≡ (ok a, s1)) × (f a s1 ≡ (ok b, s'))
  >>=-ok m f s s' h = continue-ok (m s) f s' h

  pub >>-ok :
      (m : Action S A) (k : Action S B) (s s' : S) {b : B}
      → (m >> k) s ≡ (ok b, s')
      → (a : A) × (s1 : S) × (m s ≡ (ok a, s1)) × (k s1 ≡ (ok b, s'))
  >>-ok m k s s' h = continue-ok (m s) (λ _. k) s' h

-- An action keeps what holds of the state, also where it throws.
pub record Keeps {S A : Type 0} (I : S → Type 0) (m : Action S A) : Type 0 where
  pub keeps : (s : S) → I s → I (m s).1

module _ {S A : Type 0} {I : S → Type 0} where
  pub Keeps-lift : (r : Result A) → Keeps I (lift r)
  Keeps-lift r = record { keeps = λ s i. i }

  pub Keeps-pure : (a : A) → Keeps I (pure a)
  Keeps-pure a = record { keeps = λ s i. i }

  pub Keeps-or_throw : (e : HttpError) (o : Option A) → Keeps I (or_throw e o)
  Keeps-or_throw e none = record { keeps = λ s i. i }
  Keeps-or_throw e (some a) = record { keeps = λ s i. i }

module _ {S : Type 0} {I : S → Type 0} where
  pub Keeps-throw_if : (b : Bool) (e : HttpError) → Keeps I (throw_if b e)
  Keeps-throw_if true e = record { keeps = λ s i. i }
  Keeps-throw_if false e = record { keeps = λ s i. i }

module _ {S A B : Type 0} {I : S → Type 0} where
  continue-keeps :
      (r : Result A) (f : A → Action S B) (s : S)
      → ((a : A) → Keeps I (f a))
      → I s
      → I (continue r f s).1
  continue-keeps (ok a) f s k i = (k a).keeps s i
  continue-keeps (err e) f s k i = i

  pub Keeps->>= :
      (m : Action S A) (f : A → Action S B)
      → Keeps I m
      → ((a : A) → Keeps I (f a))
      → Keeps I (m >>= f)
  Keeps->>= m f h k = record { keeps = λ s i. continue-keeps (m s).0 f (m s).1 k (h.keeps s i) }

  pub Keeps->> : (m : Action S A) (n : Action S B) → Keeps I m → Keeps I n → Keeps I (m >> n)
  Keeps->> m n h k = Keeps->>= m (λ _. n) h (λ _. k)

-- The answer of an action has a property, whatever the state.
abbrev pub Ends : {A : Type 0} → (A → Type 0) → Result A → Type 0
Ends P (ok a) = P a
Ends P (err e) = Unit

Ends-weaken :
    {A : Type 0} {P Q : A → Type 0} (r : Result A) → ((a : A) → P a → Q a) → Ends P r → Ends Q r
Ends-weaken (ok a) k h = k a h
Ends-weaken (err e) k h = tt

pub record Yields {S A : Type 0} (P : A → Type 0) (m : Action S A) : Type 0 where
  pub yields : (s : S) → Ends P (m s).0

module _ {S A : Type 0} {P : A → Type 0} where
  pub Yields-pure : {a : A} → P a → Yields {S = S} P (pure a)
  Yields-pure h = record { yields = λ s. h }

  pub Yields-throw : (e : HttpError) → Yields {S = S} P (throw e)
  Yields-throw e = record { yields = λ s. tt }

  pub Yields-weaken :
      {Q : A → Type 0} {m : Action S A} → Yields P m → ((a : A) → P a → Q a) → Yields Q m
  Yields-weaken {Q} {m} h k = record { yields = λ s. Ends-weaken (m s).0 k (h.yields s) }

  pub answer_of : {m : Action S A} {s s' : S} {a : A} → Yields P m → m s ≡ (ok a, s') → P a
  answer_of {m} {s} {s'} {a} h e = subst (λ r. Ends P r.0) e (h.yields s)

any_end : {A : Type 0} (r : Result A) → Ends {A = A} (λ _. Unit {0}) r
any_end (ok a) = tt
any_end (err e) = tt

module _ {S A B : Type 0} where
  continue-Ends :
      (R : A → Type 0) (P : B → Type 0) (r : Result A) (f : A → Action S B) (s : S)
      → Ends R r
      → ((a : A) → R a → Yields P (f a))
      → Ends P (continue r f s).0
  continue-Ends R P (ok a) f s h k = (k a h).yields s
  continue-Ends R P (err e) f s h k = tt

  pub Yields->>= :
      (R : A → Type 0) (P : B → Type 0) (m : Action S A) (f : A → Action S B)
      → Yields R m
      → ((a : A) → R a → Yields P (f a))
      → Yields P (m >>= f)
  Yields->>= R P m f h k = record {
    yields = λ s. continue-Ends R P (m s).0 f (m s).1 (h.yields s) k;
  }

  pub Yields->> :
      (P : B → Type 0) (m : Action S A) (n : Action S B) → Yields P n → Yields P (m >> n)
  Yields->> P m n h =
      Yields->>= (λ _. Unit {0}) P m (λ _. n) (record { yields = λ s. any_end (m s).0 }) (λ _ _. h)
