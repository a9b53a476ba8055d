-- ===== src/Worker/Counts.antt =====
-- What the statistics say after any number of calls of a worker.
use lib_sloppy.Base.{
  zero, suc, refl, sym, ap, ◌∙◌, ◌⊎◌, inl, inr, some, get_elem?, ℕ, ◌+◌, ◌%◌, ◌^◌, ◌<◌, ◌≡◌, true,
  false, arith, List, [], ◌∷◌, length, All,
}
use lib_sloppy.Base.Int.{ℤ, pos, negsuc}
use lib_sloppy.Worker.Stats.{AsyncWorkerStats, new_stats, update, int_ltb, as_unsigned}

abbrev pub update_all : AsyncWorkerStats → List ℤ → AsyncWorkerStats
update_all s [] = s
update_all s (t ∷ ts) = update_all (update s t) ts

-- The sum of all the times, without bound.
abbrev pub sum : List ℤ → ℕ
sum [] = 0
sum (t ∷ ts) = as_unsigned t + sum ts

abbrev pub IsBetween : ℤ → ℤ → ℤ → Type 0
IsBetween lo hi t = (int_ltb t lo ≡ false) × (int_ltb hi t ≡ false)

abbrev IsWider : AsyncWorkerStats → AsyncWorkerStats → Type 0
IsWider s s' =
    (int_ltb s.min_worker_time_ms s'.min_worker_time_ms ≡ false)
    × (int_ltb s'.max_worker_time_ms s.max_worker_time_ms ≡ false)

int_trans : (a b c : ℤ) → int_ltb b a ≡ false → int_ltb c b ≡ false → int_ltb c a ≡ false
int_trans (pos a) (pos b) (pos c) h k = ground arith
int_trans (pos a) (pos b) (negsuc c) h k = ground arith
int_trans (pos a) (negsuc b) c h k = ground arith
int_trans (negsuc a) (pos b) (pos c) h k = ground arith
int_trans (negsuc a) (pos b) (negsuc c) h k = ground arith
int_trans (negsuc a) (negsuc b) (pos c) h k = ground arith
int_trans (negsuc a) (negsuc b) (negsuc c) h k = ground arith

int_asym : (a b : ℤ) → int_ltb a b ≡ true → int_ltb b a ≡ false
int_asym (pos a) (pos b) h = ground arith
int_asym (pos a) (negsuc b) h = ground arith
int_asym (negsuc a) (pos b) h = ground arith
int_asym (negsuc a) (negsuc b) h = ground arith

int_refl : (a : ℤ) → int_ltb a a ≡ false
int_refl (pos a) = ground arith
int_refl (negsuc a) = ground arith

update_widens : (s : AsyncWorkerStats) (t : ℤ) → IsWider s (update s t)
unfolding update
update_widens s t = ground (
  arith,
  int_refl s.min_worker_time_ms,
  int_refl s.max_worker_time_ms,
  int_asym t s.min_worker_time_ms,
  int_asym s.max_worker_time_ms t,
)

update_covers :
    (s : AsyncWorkerStats) (t : ℤ)
    → IsBetween (update s t).min_worker_time_ms (update s t).max_worker_time_ms t
unfolding update
update_covers s t = ground (arith, int_refl t)

widened : (s : AsyncWorkerStats) (ts : List ℤ) → IsWider s (update_all s ts)
widened s [] = (int_refl s.min_worker_time_ms, int_refl s.max_worker_time_ms)
widened s (t ∷ ts) =
    let (lo, hi) = update_widens s t in
    let (lo', hi') = widened (update s t) ts in
    let s' = update s t in
    let e = update_all s' ts in
    (
      int_trans e.min_worker_time_ms s'.min_worker_time_ms s.min_worker_time_ms lo' lo,
      int_trans s.max_worker_time_ms s'.max_worker_time_ms e.max_worker_time_ms hi hi',
    )

times_covered :
    (s : AsyncWorkerStats) (ts : List ℤ)
    → All
        (λ (t : ℤ).
          IsBetween (update_all s ts).min_worker_time_ms (update_all s ts).max_worker_time_ms t)
        ts
times_covered s [] = tt
times_covered s (t ∷ ts) =
    let (lo, hi) = update_covers s t in
    let (lo', hi') = widened (update s t) ts in
    let s' = update s t in
    let e = update_all s' ts in
    (
      (
        int_trans e.min_worker_time_ms s'.min_worker_time_ms t lo' lo,
        int_trans t s'.max_worker_time_ms e.max_worker_time_ms hi hi',
      ),
      times_covered s' ts,
    )

times_counted :
    (s : AsyncWorkerStats) (ts : List ℤ)
    → s.n_calls < 2 ^ 64
    → s.total_runtime_ms < 2 ^ 64
    → ((update_all s ts).n_calls ≡ (s.n_calls + length ts) % 2 ^ 64)
      × ((update_all s ts).total_runtime_ms ≡ (s.total_runtime_ms + sum ts) % 2 ^ 64)
unfolding update
times_counted s [] h k = (omega arith, omega arith)
times_counted s (t ∷ ts) h k =
    let (n, total) = times_counted (update s t) ts (omega arith) (omega arith) in
    (omega (arith, n), omega (arith, total))

-- One of the elements of a list.
abbrev pub IsOneOf : List ℤ → ℤ → Type 0
IsOneOf xs x = (i : ℕ) × (get_elem? xs i ≡ some x)

IsOneOf-shift :
    (a b t : ℤ) (ts : List ℤ) (x : ℤ)
    → (a ≡ t) ⊎ (a ≡ b)
    → IsOneOf (a ∷ ts) x
    → IsOneOf (b ∷ t ∷ ts) x
IsOneOf-shift a b t ts x (inl e) (zero, h) = (1, ap some (sym e) ∙ h)
IsOneOf-shift a b t ts x (inr e) (zero, h) = (0, ap some (sym e) ∙ h)
IsOneOf-shift a b t ts x e (suc i, h) = (suc (suc i), h)

-- Each bound is the one before, or one of the times.
bounds_met :
    (s : AsyncWorkerStats) (ts : List ℤ)
    → IsOneOf (s.min_worker_time_ms ∷ ts) (update_all s ts).min_worker_time_ms
      × IsOneOf (s.max_worker_time_ms ∷ ts) (update_all s ts).max_worker_time_ms
unfolding update
bounds_met s [] = ((0, refl), (0, refl))
bounds_met s (t ∷ ts) =
    let (lo, hi) = bounds_met (update s t) ts in
    (
      IsOneOf-shift (update s t).min_worker_time_ms s.min_worker_time_ms t ts _ (ground arith) lo,
      IsOneOf-shift (update s t).max_worker_time_ms s.max_worker_time_ms t ts _ (ground arith) hi,
    )

-- After any calls of a worker, the statistics have their number and the sum of their times, both
-- modulo the size of an unsigned long long, and every time lies between the shortest and the longest
-- one; the shortest is one of the times, or the largest int, and the longest one of the times, or 0.
pub stats_lem :
    (ts : List ℤ)
    → let s = update_all new_stats ts in
      (s.n_calls ≡ length ts % 2 ^ 64)
      × (s.total_runtime_ms ≡ sum ts % 2 ^ 64)
      × All (λ (t : ℤ). IsBetween s.min_worker_time_ms s.max_worker_time_ms t) ts
      × IsOneOf (pos 2147483647 ∷ ts) s.min_worker_time_ms
      × IsOneOf (pos 0 ∷ ts) s.max_worker_time_ms
unfolding new_stats
stats_lem ts =
    let (n, total) = times_counted new_stats ts (omega arith) (omega arith) in
    let (lo, hi) = bounds_met new_stats ts in
    (omega (arith, n), omega (arith, total), times_covered new_stats ts, lo, hi)
