-- ===== src/Worker/Stats.antt =====
-- ThreadStats.h and ThreadStats.cpp: what is counted of the calls of a worker. The averages are
-- divisions of doubles and are left out.
use lib_sloppy.Base.{ℕ, ◌+◌, ◌-◌, ◌%◌, ◌^◌, Bool, if◌then◌else◌, ltb, true, false}
use lib_sloppy.Base.Int.{ℤ, pos, negsuc}

abbrev pub int_max : ℕ
int_max = 2147483647

-- Comparison of two ints, and an int added to an unsigned long long.
abbrev pub int_ltb : ℤ → ℤ → Bool
int_ltb (pos m) (pos n) = ltb m n
int_ltb (pos m) (negsuc n) = false
int_ltb (negsuc m) (pos n) = true
int_ltb (negsuc m) (negsuc n) = ltb n m

abbrev pub as_unsigned : ℤ → ℕ
as_unsigned (pos n) = n % 2 ^ 64
as_unsigned (negsuc n) = 2 ^ 64 - (n + 1)

pub record AsyncWorkerStats : Type 0 where
  pub n_calls : ℕ
  pub total_runtime_ms : ℕ
  pub last_runtime_ms : ℤ
  pub min_worker_time_ms : ℤ
  pub max_worker_time_ms : ℤ

unfoldable pub new_stats : AsyncWorkerStats
new_stats = record {
  n_calls = 0;
  total_runtime_ms = 0;
  last_runtime_ms = pos 0;
  min_worker_time_ms = pos int_max;
  max_worker_time_ms = pos 0;
}

unfoldable pub update : AsyncWorkerStats → ℤ → AsyncWorkerStats
update s exec_time_ms = record {
  n_calls = (s.n_calls + 1) % 2 ^ 64;
  total_runtime_ms = (s.total_runtime_ms + as_unsigned exec_time_ms) % 2 ^ 64;
  last_runtime_ms = exec_time_ms;
  min_worker_time_ms =
      if int_ltb exec_time_ms s.min_worker_time_ms then exec_time_ms else s.min_worker_time_ms;
  max_worker_time_ms =
      if int_ltb s.max_worker_time_ms exec_time_ms then exec_time_ms else s.max_worker_time_ms;
}
