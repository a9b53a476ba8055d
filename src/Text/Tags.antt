-- ===== src/Text/Tags.antt =====
-- What a percent sign at the end of a string does to arg.
use lib_sloppy.Base.{
  ℕ, suc, ◌+◌, ◌-◌, ◌≡◌, ◌≢◌, ◌<◌, refl, false, not, ◌&&◌, inl, inr, ap, ◌∙◌, Result-cases, Error,
  length-append, [], ◌∷◌, ◌++◌, Bytes, arith, length, ◌==◌, Bool-cases, Result, ok, err, ◌>>=◌,
  invalid_argument, undefined_behaviour,
}
use mathlib.Core.Path.{subst}
use lib_sloppy.Base.Int.{ℤ, pos, negsuc, to_int, to_int_small}
use lib_sloppy.Text.Trim.{spaces}
use lib_sloppy.Text.Numbers.{is_digit, stoi, stoi_thrown}
use lib_sloppy.Text.Args.{
  Scan, no_tag, max_int, not_found, close_digits, close_current_tag, outside, reset, step_in,
  scan_loop, close_last, find_all_arg_tags, arg,
}

-- A call that returns a result with a property or throws an exception.
abbrev Keeps {ℓ} : {A : Type ℓ} → Result A → (A → Type 0) → Type 0
Keeps (ok a) P = P a
Keeps (err e) P = e ≢ undefined_behaviour

bind-Keeps {ℓ κ} :
    {A : Type ℓ} {B : Type κ} (P : A → Type 0) (Q : B → Type 0) (m : Result A) (next : A → Result B)
    → Keeps m P
    → ((a : A) → P a → Keeps (next a) Q)
    → Keeps (m >>= next) Q
bind-Keeps P Q (ok a) next h k = k a h
bind-Keeps P Q (err e) next h k = h

thrown-Keeps {ℓ} :
    {A : Type ℓ} (m : Result A)
    → ((e : Error) → m ≡ err e → e ≢ undefined_behaviour)
    → Keeps m (λ a. Unit)
thrown-Keeps (ok a) h = tt
thrown-Keeps (err e) h = h e refl

-- A start index that is before the largest `int`.
abbrev IsSmall : ℤ → Type 0
IsSmall (pos n) = n < max_int
IsSmall (negsuc n) = Unit

digits-Keeps :
    (s : Bytes) (scan : Scan) (start idx_end : ℕ)
    → start < max_int
    → idx_end < max_int
    → Keeps (close_digits s scan start idx_end) (λ closed. Unit)
digits-Keeps s scan start idx_end h k =
    let whole : to_int (idx_end - start + 1) ≡ pos (idx_end - start + 1) =
      to_int_small (idx_end - start + 1) (omega (arith, h, k)) in
    rw whole (
      bind-Keeps (λ val. Unit) (λ closed. Unit) (stoi _) _ (thrown-Keeps (stoi _) (stoi_thrown _))
        λ val u. tt)

to_int-IsSmall : (idx : ℕ) → idx < max_int → IsSmall (to_int idx)
to_int-IsSmall idx h = rw (to_int_small idx (omega (arith, h))) h

outside-IsSmall :
    (scan : Scan) (idx c : ℕ)
    → IsSmall scan.open_tag
    → idx < max_int
    → IsSmall (outside scan idx c).open_tag
outside-IsSmall scan idx c h k = elim (Bool-cases (c == b'%')) [
  | inl e ↦ rw e (to_int-IsSmall idx k)
  | inr e ↦ rw e h
]

-- A round of the loop keeps the start index small.
step-Keeps :
    (start : ℤ) (s : Bytes) (scan : Scan) (idx c : ℕ)
    → start ≡ scan.open_tag
    → IsSmall start
    → idx < max_int
    → Keeps (step_in start s scan idx c) (λ next. IsSmall next.open_tag)
unfolding step_in
step-Keeps (negsuc n) s scan idx c e h k = outside-IsSmall scan idx c (subst IsSmall e h) k
step-Keeps (pos start) s scan idx c e h k =
    let before : (start == max_int) ≡ false = ground (arith, h) in
    elim (Bool-cases (c == b'%' && idx == start + 1)) [
      | inl p ↦ rw (before, p) (to_int-IsSmall idx k)
      | inr p ↦ elim (Bool-cases (idx == start + 1 && not (is_digit c))) [
        | inl q ↦ rw (before, p, q) tt
        | inr q ↦ elim (Bool-cases (is_digit c)) [
          | inl d ↦ rw (before, p, q, d) (subst IsSmall e h)
          | inr d ↦
              rw (before, p, q, d)
                (bind-Keeps (λ closed. Unit) (λ (next : Scan). IsSmall next.open_tag)
                  (close_digits s scan start (idx - 1)) _
                  (digits-Keeps s scan start (idx - 1) h (omega (arith, k)))
                  λ closed u. outside-IsSmall (reset closed) idx c tt k)
        ]
      ]
    ]

-- A percent sign is the start of a tag.
percent-Keeps :
    (start : ℤ) (s : Bytes) (scan : Scan) (idx : ℕ)
    → IsSmall start
    → idx < max_int
    → Keeps (step_in start s scan idx b'%') (λ next. next.open_tag ≡ pos idx)
unfolding step_in is_digit
percent-Keeps (negsuc n) s scan idx h k = to_int_small idx (omega (arith, k))
percent-Keeps (pos start) s scan idx h k =
    let before : (start == max_int) ≡ false = ground (arith, h) in
    let whole = to_int_small idx (omega (arith, k)) in
    elim (Bool-cases (idx == start + 1)) [
      | inl f ↦ rw (before, f) whole
      | inr f ↦
          rw (before, f)
            (bind-Keeps (λ closed. Unit) (λ (next : Scan). next.open_tag ≡ pos idx)
              (close_digits s scan start (idx - 1)) _
              (digits-Keeps s scan start (idx - 1) h (omega (arith, k))) λ closed u. whole)
    ]

scan-Keeps :
    (s : Bytes) (scan : Scan) (idx : ℕ) (rest : Bytes)
    → IsSmall scan.open_tag
    → idx + length rest < max_int
    → Keeps
        (scan_loop s scan idx (rest ++ b'%' ∷ []))
        (λ next. next.open_tag ≡ pos (idx + length rest))
unfolding scan_loop
scan-Keeps s scan idx [] h k =
    bind-Keeps (λ (next : Scan). next.open_tag ≡ pos idx) _ (step_in scan.open_tag s scan idx b'%')
      _ (percent-Keeps scan.open_tag s scan idx h (omega (arith, k)))
      λ next o. o ∙ ap pos (omega arith)
scan-Keeps s scan idx (c ∷ rest) h k =
    bind-Keeps (λ (next : Scan). IsSmall next.open_tag) _ (step_in scan.open_tag s scan idx c) _
      (step-Keeps scan.open_tag s scan idx c refl h (omega (arith, k)))
      λ next small.
        let e : idx + 1 + length rest ≡ idx + suc (length rest) = omega arith in
        subst
          (λ n.
            Keeps (scan_loop s next (idx + 1) (rest ++ b'%' ∷ []))
              (λ (last : Scan). last.open_tag ≡ pos n))
          e (scan-Keeps s next (idx + 1) rest small (omega (arith, k)))

stoi_empty : stoi [] ≡ err invalid_argument
unfolding stoi spaces
stoi_empty = refl

close_percent :
    (s : Bytes) (scan : Scan)
    → length s < max_int
    → close_last (pos (length s)) (s ++ b'%' ∷ []) scan ≡ err invalid_argument
unfolding close_last close_current_tag
close_percent s scan h =
    let before : (length s == max_int) ≡ false = ground (arith, h) in
    let z : length (s ++ b'%' ∷ []) - 1 - length s + 1 ≡ 1 =
      omega (arith, length-append s (b'%' ∷ [])) in
    rw (before, z, to_int_small 1 (omega arith), stoi_empty)

-- A string that ends with a percent sign, whose index is less than the largest `int`, makes arg throw
-- an exception, whatever is before the sign.
pub arg_percent_at_end :
    (s value : Bytes)
    → length s < max_int
    → (e : Error) × (arg (s ++ b'%' ∷ []) value ≡ err e) × (e ≢ undefined_behaviour)
unfolding arg find_all_arg_tags
arg_percent_at_end s value h =
    let whole = s ++ b'%' ∷ [] in
    let start : Scan = record { open_tag = no_tag; all_tags = []; lowest_arg = pos not_found } in
    let at_end : Scan → Type 0 = λ next. next.open_tag ≡ pos (0 + length s) in
    let kept = scan-Keeps whole start 0 s tt (omega (arith, h)) in
    elim (Result-cases (scan_loop whole start 0 whole)) [
      | inl (e, q) ↦ (e, rw (q) refl, subst (λ m. Keeps m at_end) q kept)
      | inr (next, q) ↦
          let o : next.open_tag ≡ pos (length s) =
            subst (λ m. Keeps m at_end) q kept ∙ ap pos (omega arith) in
          let closed : close_last next.open_tag whole next ≡ err invalid_argument =
            ap (λ z. close_last z whole next) o ∙ close_percent s next h in
          (invalid_argument, rw (q, closed) refl, λ e. cc)
    ]
