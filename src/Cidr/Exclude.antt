-- ===== src/Cidr/Exclude.antt =====
-- src/backend/wg/tools/cidr.rs: `normalize_cidr_set` and `compute_cidr_exclusion`.
pub mod Prefix
pub mod Sets
pub mod Hosts
use r_wg.Base.{
  ℕ, zero, suc, ◌-◌, Bool, true, false, not, ◌||◌, List, [], ◌∷◌, ◌++◌, ltb, if◌then◌else◌, length,
  is_empty,
}
use r_wg.Base.Result.{Result, ok, err, ◌>>=◌}
use r_wg.Net.{AllowedIp}
use r_wg.Cidr.{ToolError, too_many_results, max_bits, contains_prefix, overlaps, split_children}
use r_wg.Cidr.Normalize.{NormalizeStats, normalize_prefixes}

abbrev pub within : ℕ → List AllowedIp → Result ToolError (List AllowedIp)
within limit out =
    if ltb limit (length out) then err (too_many_results limit (length out)) else ok out

-- `subtract_prefix` by recursion on the bits that the prefix has left, `max_bits - cidr`: with none
-- left the code's test `include.cidr >= max_bits` holds. The output vector is passed along.
unfoldable pub subtract_bits :
    ℕ → AllowedIp → AllowedIp → List AllowedIp → ℕ → Result ToolError (List AllowedIp)
subtract_bits zero include exclude out limit =
    if not (overlaps include exclude) then within limit (out ++ include ∷ []) else ok out
subtract_bits (suc bits) include exclude out limit =
    let halves = do
      out_left ← subtract_bits bits (split_children include).0 exclude out limit
      out_right ← subtract_bits bits (split_children include).1 exclude out_left limit
      within limit out_right
    in if not (overlaps include exclude)
      then within limit (out ++ include ∷ [])
      else if contains_prefix exclude include
      then ok out
      else halves

unfoldable pub subtract_prefix :
    AllowedIp → AllowedIp → List AllowedIp → ℕ → Result ToolError (List AllowedIp)
unfolding subtract_bits
subtract_prefix include exclude out limit =
    subtract_bits (max_bits include.addr - include.cidr) include exclude out limit

-- `for prefix in current { subtract_prefix(..)?; }`
unfoldable pub subtract_each :
    List AllowedIp → AllowedIp → List AllowedIp → ℕ → Result ToolError (List AllowedIp)
subtract_each [] exclude next limit = ok next
subtract_each (p ∷ current) exclude next limit = do
  next' ← subtract_prefix p exclude next limit
  subtract_each current exclude next' limit

-- `for exclude in &normalized_excludes`, which stops once nothing is left.
unfoldable pub subtract_all :
    List AllowedIp → List AllowedIp → ℕ → Result ToolError (List AllowedIp)
subtract_all current [] limit = ok current
subtract_all current (exclude ∷ excludes) limit = do
  next ← subtract_each current exclude [] limit
  let rest = subtract_all next excludes limit
  if is_empty next then ok next else rest

-- `for include in &normalized_includes`
unfoldable pub exclude_loop :
    List AllowedIp → List AllowedIp → List AllowedIp → ℕ → Result ToolError (List AllowedIp)
exclude_loop remaining [] excludes limit = ok remaining
exclude_loop remaining (include ∷ includes) excludes limit = do
  current ← subtract_all (include ∷ []) excludes limit
  remaining' ← within limit (remaining ++ current)
  exclude_loop remaining' includes excludes limit

pub record CidrExclusionStats : Type 0 where
  pub input_include_count : ℕ
  pub input_exclude_count : ℕ
  pub normalized_include_count : ℕ
  pub normalized_exclude_count : ℕ
  pub output_count : ℕ
  pub host_bits_normalized : Bool
  pub merged_prefixes : Bool

pub record CidrExclusionResult : Type 0 where
  pub normalized_includes : List AllowedIp
  pub normalized_excludes : List AllowedIp
  pub remaining : List AllowedIp
  pub stats : CidrExclusionStats

abbrev pub remaining_of : CidrExclusionResult → List AllowedIp
remaining_of r = r.remaining

exclusion_result :
    List AllowedIp
    → List AllowedIp
    → List AllowedIp × NormalizeStats
    → List AllowedIp × NormalizeStats
    → List AllowedIp × NormalizeStats
    → CidrExclusionResult
exclusion_result includes excludes (inc, inc_stats) (exc, exc_stats) (out, out_stats) = record {
  normalized_includes = inc;
  normalized_excludes = exc;
  remaining = out;
  stats = record {
    input_include_count = length includes;
    input_exclude_count = length excludes;
    normalized_include_count = inc_stats.count;
    normalized_exclude_count = exc_stats.count;
    output_count = length out;
    host_bits_normalized =
        inc_stats.host_bits_normalized
        || (exc_stats.host_bits_normalized || out_stats.host_bits_normalized);
    merged_prefixes =
        inc_stats.merged_prefixes || (exc_stats.merged_prefixes || out_stats.merged_prefixes);
  };
}

unfoldable pub compute_cidr_exclusion :
    List AllowedIp → List AllowedIp → ℕ → Result ToolError CidrExclusionResult
unfolding exclusion_result
compute_cidr_exclusion includes excludes limit = do
  let inc = normalize_prefixes includes
  let exc = normalize_prefixes excludes
  remaining ← exclude_loop [] inc.0 exc.0 limit
  let out = normalize_prefixes remaining
  _ ← within limit out.0
  ok (exclusion_result includes excludes inc exc out)

pub record CidrNormalizationResult : Type 0 where
  pub normalized : List AllowedIp
  pub input_count : ℕ
  pub stats : NormalizeStats

unfoldable pub normalize_cidr_set : List AllowedIp → ℕ → Result ToolError CidrNormalizationResult
normalize_cidr_set prefixes limit = do
  let normal = normalize_prefixes prefixes
  normalized ← within limit normal.0
  ok (record { normalized = normalized; input_count = length prefixes; stats = normal.1 })
