-- ===== src/Text/Args.antt =====
-- arg, which puts a string in place of the tags %1, %2, ... with the lowest number. The size
-- that arg reserves for the result is left out.
use lib_sloppy.Base.{
  ℕ, ◌+◌, ◌-◌, Bool, true, false, not, ◌&&◌, ◌||◌, List, [], ◌∷◌, ◌++◌, Bytes, length, take, drop,
  ltb, ◌==◌, if◌then◌else◌, Result, ok, err, ◌>>=◌, out_of_range, undefined_behaviour,
}
use lib_sloppy.Base.Int.{ℤ, pos, negsuc, to_int, to_size}
use lib_sloppy.Text.Edit.{slice, npos}
use lib_sloppy.Text.Numbers.{is_digit, stoi}

-- A tag from its percent sign to its last digit, and its number. The members are of type `int`, to
-- which the indices are converted.
pub record TagData : Type 0 where
  pub idx_start : ℤ
  pub idx_end : ℤ
  pub len : ℤ
  pub val : ℤ

abbrev pub not_found : ℕ
not_found = 999999

abbrev lt_z : ℤ → ℤ → Bool
lt_z (pos a) (pos b) = ltb a b
lt_z (pos a) (negsuc b) = false
lt_z (negsuc a) (pos b) = true
lt_z (negsuc a) (negsuc b) = ltb b a

abbrev eq_z : ℤ → ℤ → Bool
eq_z (pos a) (pos b) = a == b
eq_z (negsuc a) (negsuc b) = a == b
eq_z _ _ = false

-- -1, the start index where no tag is open.
abbrev pub no_tag : ℤ
no_tag = negsuc 0

-- The largest `int`; adding 1 to it has no meaning, nor has taking 1 from the smallest.
abbrev pub max_int : ℕ
max_int = 2147483647

-- `idxEnd + 1`, and `len - 1`, as `size_t`.
abbrev pub behind : ℤ → Result ℕ
behind (pos n) = if n == max_int then err undefined_behaviour else ok (n + 1)
behind (negsuc n) = ok (if n == 0 then 0 else npos + 1 - n)

abbrev pub digit_count : ℤ → Result ℕ
digit_count (pos n) = ok (if n == 0 then npos else n - 1)
digit_count (negsuc n) = if n == max_int then err undefined_behaviour else ok (npos - (n + 1))

-- The variables of the loop of findAllArgTags; of the current tag only the start index is used before
-- the tag is closed.
pub record Scan : Type 0 where
  pub open_tag : ℤ
  pub all_tags : List TagData
  pub lowest_arg : ℤ

-- closeCurrentTag for a tag that starts at `start`.
abbrev pub close_digits : Bytes → Scan → ℕ → ℕ → Result Scan
close_digits s scan start idx_end = do
  let len = to_int (idx_end - start + 1)
  count ← digit_count len
  val ← stoi (take count (drop (start + 1) s))
  ok (record scan {
    all_tags =
        scan.all_tags
        ++ (record { idx_start = pos start; idx_end = to_int idx_end; len = len; val = val }) ∷ [];
    lowest_arg = if lt_z val scan.lowest_arg then val else scan.lowest_arg;
  })

unfoldable pub close_current_tag : Bytes → Scan → ℕ → ℕ → Result Scan
unfolding to_int
close_current_tag s scan start idx_end =
    if start == max_int then err undefined_behaviour else close_digits s scan start idx_end

-- A character outside a tag.
abbrev pub outside : Scan → ℕ → ℕ → Scan
outside scan idx c = record scan { open_tag = (if c == b'%' then to_int idx else scan.open_tag) }

abbrev pub reset : Scan → Scan
reset scan = record scan { open_tag = no_tag }

-- One round of the loop, by the start index of the current tag.
unfoldable pub step_in : ℤ → Bytes → Scan → ℕ → ℕ → Result Scan
unfolding close_current_tag to_int is_digit
step_in (negsuc _) s scan idx c = ok (outside scan idx c)
step_in (pos start) s scan idx c =
    if start == max_int
    then err undefined_behaviour
    else if c == b'%' && idx == start + 1
    then ok (record scan { open_tag = to_int idx })
    else if idx == start + 1 && not (is_digit c)
    then ok (reset scan)
    else if not (is_digit c)
    then (close_current_tag s scan start (idx - 1) >>= λ closed. ok (outside (reset closed) idx c))
    else ok scan

-- The loop over the characters that are left, the first of which has index `idx`.
unfoldable pub scan_loop : Bytes → Scan → ℕ → Bytes → Result Scan
unfolding step_in
scan_loop s scan idx [] = ok scan
scan_loop s scan idx (c ∷ rest) =
    step_in scan.open_tag s scan idx c >>= λ next. scan_loop s next (idx + 1) rest

unfoldable pub close_last : ℤ → Bytes → Scan → Result Scan
unfolding close_current_tag
close_last (negsuc _) s scan = ok scan
close_last (pos start) s scan = close_current_tag s scan start (length s - 1)

unfoldable pub find_all_arg_tags : Bytes → Result (List TagData × ℤ)
unfolding scan_loop close_last
find_all_arg_tags s = do
  scan ← scan_loop s (record { open_tag = no_tag; all_tags = []; lowest_arg = pos not_found }) 0 s
  last ← close_last scan.open_tag s scan
  ok (last.all_tags, last.lowest_arg)

-- The concatenation of the fragments of the string and the replacements: what is written, and the
-- position behind the last tag.
put_tags : Bytes → Bytes → ℤ → List TagData → Bytes → ℕ → Result (Bytes × ℕ)
put_tags s value lowest [] tmp src_pos = ok (tmp, src_pos)
put_tags s value lowest (tag ∷ tags) tmp src_pos =
    let skipped = put_tags s value lowest tags tmp src_pos in
    let replaced = λ (before : Bytes).
      behind tag.idx_end >>= λ next. put_tags s value lowest tags ((tmp ++ before) ++ value) next in
    if not (eq_z tag.val lowest)
    then skipped
    else if ltb src_pos (to_size tag.idx_start)
    then (slice s src_pos (to_size tag.idx_start - 1) >>= replaced)
    else replaced []

-- `substr`: a position behind the end throws.
abbrev pub rest_from : Bytes → ℕ → Result Bytes
rest_from s src_pos = if ltb (length s) src_pos then err out_of_range else ok (drop src_pos s)

unfoldable pub arg : Bytes → Bytes → Result Bytes
unfolding find_all_arg_tags put_tags
arg s value = find_all_arg_tags s >>= λ found.
    (if eq_z found.1 (pos not_found) || length found.0 == 0
      then ok s
      else (put_tags s value found.1 found.0 [] 0 >>= λ done.
          rest_from s done.1 >>= λ rest. ok (done.0 ++ rest)))
