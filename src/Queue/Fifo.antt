-- ===== src/Queue/Fifo.antt =====
-- What is taken from a queue that is never cleared.
use lib_sloppy.Base.{
  ℕ, zero, suc, ◌+◌, ◌≡◌, ◌≢◌, refl, sym, ap, ◌∙◌, Bool, true, List, [], ◌∷◌, ◌++◌, length,
  length-append, Result, ok, err, undefined_behaviour, arith, if◌then◌else◌, inl, inr, ◌⊎◌,
}
use lib_sloppy.Queue.{Kind, Queue, notify, put, wait_for_data, take_front}
use lib_sloppy.Queue.Kind.{condition_variable, pipe_synced}
use lib_sloppy.Queue.Steps.{State}

nat-cases : (n : ℕ) → (n ≡ 0) ⊎ ((m : ℕ) × (n ≡ suc m))
nat-cases zero = inl refl
nat-cases (suc m) = inr (m, refl)

pub list-cases {ℓ} :
    {A : Type ℓ} (xs : List A) → (xs ≡ []) ⊎ ((x : A) × (rest : List A) × (xs ≡ x ∷ rest))
list-cases [] = inl refl
list-cases (x ∷ rest) = inr (x, rest, refl)

module _ {T : Type 0} where
  -- A reader that has been woken has an element for it; in a pipe there is a token for each other.
  unfoldable pub IsBacked : Kind → State T → Type 0
  IsBacked condition_variable s = s.woken ≡ true → length s.queue.items ≢ 0
  IsBacked pipe_synced s = length s.queue.items ≡ s.queue.tokens + (if s.woken then 1 else 0)

  pub items-put : (k : Kind) (q : Queue T) (x : T) → (put k q x).items ≡ q.items ++ x ∷ []
  unfolding put notify
  items-put condition_variable q x = refl
  items-put pipe_synced q x = refl

  -- A wait takes the token that it finds.
  pub tokens-wait :
      (q : Queue T)
      → (wait_for_data pipe_synced q).1.tokens + (if (wait_for_data pipe_synced q).0 then 1 else 0)
        ≡ q.tokens
  unfolding wait_for_data
  tokens-wait q = elim (nat-cases q.tokens) [
    | inl e ↦ rw (wait_for_data, e) (omega arith)
    | inr (n, e) ↦ rw (wait_for_data, e) (omega arith)
  ]

  pub waits-nonempty :
      (q : Queue T) → (wait_for_data condition_variable q).0 ≡ true → length q.items ≢ 0
  unfolding wait_for_data
  waits-nonempty q e z = ground arith

  -- A wait leaves the elements.
  pub items-wait_for_data : (k : Kind) (q : Queue T) → (wait_for_data k q).1.items ≡ q.items
  unfolding wait_for_data
  items-wait_for_data condition_variable q = refl
  items-wait_for_data pipe_synced q = elim (nat-cases q.tokens) [
    | inl e ↦ rw (wait_for_data, e)
    | inr (n, e) ↦ rw (wait_for_data, e)
  ]

  pub take_none : (q : Queue T) → q.items ≡ [] → take_front q ≡ err undefined_behaviour
  unfolding take_front
  take_none q n = rw (take_front, n)

  pub take_some :
      (q : Queue T) (x : T) (rest : List T)
      → q.items ≡ x ∷ rest
      → take_front q ≡ ok (x, record q { items = rest })
  unfolding take_front
  take_some q x rest c = rw (take_front, c)

  taken_from_none : {p : T × Queue T} → err undefined_behaviour ≡ ok p → ⊥
  taken_from_none h = cc

  pub take_front-some :
      (q q' : Queue T) (x : T)
      → take_front q ≡ ok (x, q')
      → (q.items ≡ x ∷ q'.items) × (q'.tokens ≡ q.tokens)
  unfolding take_front
  take_front-some q q' x e = elim (list-cases q.items) [
    | inl n ↦ absurd (taken_from_none (sym (take_none q n) ∙ e))
    | inr (y, rest, c) ↦
        let p : ok (y, record q { items = rest }) ≡ ok (x, q') = sym (take_some q y rest c) ∙ e in
        let first : y ≡ x =
          ap (λ (r : Result (T × Queue T)). elim r [ ok a ↦ a.0 | err _ ↦ x ]) p in
        let others : rest ≡ q'.items =
          ap (λ (r : Result (T × Queue T)). elim r [ ok a ↦ a.1.items | err _ ↦ rest ]) p in
        let tokens : q.tokens ≡ q'.tokens =
          ap (λ (r : Result (T × Queue T)). elim r [ ok a ↦ a.1.tokens | err _ ↦ q.tokens ]) p in
        (c ∙ ap (λ (a : T). a ∷ rest) first ∙ ap (λ (r : List T). x ∷ r) others, sym tokens)
  ]

  pub put-IsBacked :
      (k : Kind) (q : Queue T) (woken : Bool) (x : T)
      → IsBacked k (record { queue = q; woken = woken })
      → IsBacked k (record { queue = put k q x; woken = woken })
  unfolding IsBacked put notify
  put-IsBacked condition_variable q woken x h =
      λ w e. absurd (omega (arith, length-append q.items (x ∷ []), e))
  put-IsBacked pipe_synced q woken x h = omega (arith, length-append q.items (x ∷ []), h)
