-- ===== src/Net/Safety/Rules.antt =====
-- When a getter of InMessage is safe on any bytes, and the rules that put safe steps together.
use lib_sloppy.Base.{
  ℕ, zero, suc, ◌+◌, ◌-◌, ◌%◌, ◌==◌, ◌≤◌, ◌<◌, ◌≡◌, ◌≢◌, refl, ap, ◌∙◌, ◌⊎◌, inl, inr, true, [],
  ◌∷◌, Bytes, arith, length, drop, take, drop-drop, leb, ltb, Result, ok, err, out_of_range,
  undefined_behaviour, Bool-cases,
}
use lib_sloppy.Memory.{size_mod, slice_by_count, deref, window}
use lib_sloppy.Memory.Slices.{chop_left-drop, chop_left_refused}
use lib_sloppy.Net.In.{
  InMessage, M, and_then, ◌>>=◌, ◌>>◌, return, lift, front, chop, lift_view, assert_sufficient_data,
  peek, from_data_copy,
}

-- The second message is the first with some bytes more read.
abbrev pub IsAdvanced : InMessage → InMessage → Type 0
IsAdvanced m m' = (k : ℕ) × (m' ≡ record m { cur_view = drop k m.cur_view })

-- On a message with `n` unread bytes at least, the getter returns or throws, reads no byte outside
-- the message, and moves forward.
pub record Safe {A : Type 0} (n : ℕ) (g : M A) : Type 0 where
  pub defined : (m : InMessage) → n ≤ length m.cur_view → (g m).0 ≢ err undefined_behaviour
  pub forward : (m : InMessage) → n ≤ length m.cur_view → IsAdvanced m (g m).1

pub IsAdvanced-trans : {a b c : InMessage} → IsAdvanced a b → IsAdvanced b c → IsAdvanced a c
IsAdvanced-trans {a} {b} {c} (j, p) (k, q) =
    (j + k, q ∙ rw p (ap (λ v. record a { cur_view = v }) (drop-drop k j a.cur_view)))

module _ {A B : Type 0} (f : A → M B) where
  bind_defined :
      (r : Result A × InMessage)
      → r.0 ≢ err undefined_behaviour
      → ((a : A) → Safe 0 (f a))
      → (and_then r f).0 ≢ err undefined_behaviour
  bind_defined (ok a, m) d s = (s a).defined m (omega arith)
  bind_defined (err e, m) d s = λ h. d (ground arith)

  bind_forward :
      (m : InMessage) (r : Result A × InMessage)
      → IsAdvanced m r.1
      → ((a : A) → Safe 0 (f a))
      → IsAdvanced m (and_then r f).1
  bind_forward m (ok a, m') d s = IsAdvanced-trans d ((s a).forward m' (omega arith))
  bind_forward m (err e, m') d s = d

  pub Safe-bind : (n : ℕ) (g : M A) → Safe n g → ((a : A) → Safe 0 (f a)) → Safe n (g >>= f)
  Safe-bind n g s t = record {
    defined = λ m h. bind_defined (g m) (s.defined m h) t;
    forward = λ m h. bind_forward m (g m) (s.forward m h) t;
  }

pub Safe-return : {A : Type 0} (a : A) → Safe 0 (return a)
Safe-return a = record { defined = λ m h e. cc; forward = λ m h. (0, refl) }

pub Safe-weaken : {A : Type 0} (n : ℕ) (g : M A) → Safe 0 g → Safe n g
Safe-weaken n g s = record {
  defined = λ m h. s.defined m (omega arith);
  forward = λ m h. s.forward m (omega arith);
}

pub from_data_copy-Safe : (bs : Bytes) → Safe 0 (lift (from_data_copy bs))
unfolding from_data_copy
from_data_copy-Safe bs = record { defined = λ m h e. ground arith; forward = λ m h. (0, refl) }

-- A check makes what follows safe on any message.
pub Safe-assert : {B : Type 0} (n : ℕ) (g : M B) → Safe n g → Safe 0 (assert_sufficient_data n >> g)
Safe-assert n g s = record {
  defined = λ m h. elim (Bool-cases (ltb (length m.cur_view) n)) [
    | inl short ↦ rw short (λ e. cc)
    | inr long ↦ rw long (s.defined m (ground arith))
  ];
  forward = λ m h. elim (Bool-cases (ltb (length m.cur_view) n)) [
    | inl short ↦ rw short (0, refl)
    | inr long ↦ rw long (s.forward m (ground arith))
  ];
}

deref_defined : (v : Bytes) (i : ℕ) → i < length v → (a : ℕ) × (deref v i ≡ ok a)
deref_defined [] i h = elim h [ ]
deref_defined (x ∷ v) zero h = (x, refl)
deref_defined (x ∷ v) (suc i) h = deref_defined v i (omega arith)

window_defined : (v : Bytes) (n : ℕ) → n ≤ length v → window v 0 n ≡ ok (take n v)
window_defined v n h = let e : leb (0 + n) (length v) ≡ true = ground arith in rw e

-- `slice_byCount` at index 0 throws or gives a view, whatever the sum of its test wraps to.
slice_defined :
    (v : Bytes) (n : ℕ)
    → n ≤ length v
    → (slice_by_count v 0 n ≡ err out_of_range) ⊎ ((w : Bytes) × (slice_by_count v 0 n ≡ ok w))
unfolding slice_by_count
slice_defined v n h = elim (Bool-cases (leb (length v) 0)) [
  | inl e ↦ inl (ground arith)
  | inr e ↦ elim (Bool-cases (leb (length v) ((0 + n - 1) % size_mod))) [
    | inl f ↦ elim (Bool-cases (n == 0)) [
      | inl z ↦ inr ([], ground arith)
      | inr z ↦ inl (ground arith)
    ]
    | inr f ↦ inr (take n v, ground arith)
  ]
]

module _ {B : Type 0} where
  pub Safe-peek : (n i : ℕ) (f : ℕ → M B) → i < n → ((a : ℕ) → Safe n (f a)) → Safe n (peek i >>= f)
  Safe-peek n i f lt s = record {
    defined =
        λ m h. let (a, e) = deref_defined m.cur_view i (omega arith) in rw e ((s a).defined m h);
    forward =
        λ m h. let (a, e) = deref_defined m.cur_view i (omega arith) in rw e ((s a).forward m h);
  }

  -- A chop of more than there is throws.
  pub Safe-chop : (k n : ℕ) (g : M B) → Safe 0 g → Safe k (chop n >> g)
  Safe-chop k n g s = record {
    defined = λ m h. elim (Bool-cases (ltb (length m.cur_view) n)) [
      | inl short ↦ rw (chop_left_refused m.cur_view n (ground arith)) (λ e. cc)
      | inr long ↦ rw (chop_left-drop m.cur_view n (ground arith)) (s.defined _ (omega arith))
    ];
    forward = λ m h. elim (Bool-cases (ltb (length m.cur_view) n)) [
      | inl short ↦ rw (chop_left_refused m.cur_view n (ground arith)) (0, refl)
      | inr long ↦ rw (chop_left-drop m.cur_view n (ground arith)) (
          IsAdvanced-trans {a = m} (n, refl)
            (s.forward (record m { cur_view = drop n m.cur_view }) (omega arith)))
    ];
  }

  pub Safe-front : (n : ℕ) (f : Bytes → M B) → ((v : Bytes) → Safe n (f v)) → Safe n (front n >>= f)
  Safe-front n f s = record {
    defined = λ m h. rw (window_defined m.cur_view n h) ((s _).defined m h);
    forward = λ m h. rw (window_defined m.cur_view n h) ((s _).forward m h);
  }

  pub Safe-slice :
      (n : ℕ) (f : Bytes → M B)
      → ((v : Bytes) → Safe n (f v))
      → Safe n (lift_view (λ v. slice_by_count v 0 n) >>= f)
  Safe-slice n f s = record {
    defined = λ m h. elim (slice_defined m.cur_view n h) [
      | inl e ↦ rw e (λ c. cc)
      | inr (w, e) ↦ rw e ((s w).defined m h)
    ];
    forward = λ m h. elim (slice_defined m.cur_view n h) [
      | inl e ↦ rw e (0, refl)
      | inr (w, e) ↦ rw e ((s w).forward m h)
    ];
  }
