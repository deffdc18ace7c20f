-- ===== src/Tests/CidrTests.antt =====
-- Prefix sets: the cases of the tests in src/backend/wg/tools/cidr.rs, and the theorems at them.
use r_wg.Base.{ℕ, ◌*◌, ◌+◌, ◌≡◌, refl, List, [], ◌∷◌, arith, false}
use r_wg.Base.Result.{ok, map_ok}
use r_wg.Net.{v4, AllowedIp, IsPrefix}
use r_wg.Cidr.{
  apply_v4_mask, apply_v6_mask, apply_mask, host_increment, add_offset, canonicalize,
  contains_prefix, overlaps, key_gt, split_children, ordered, parent_of, sibling_parent,
}
use r_wg.Cidr.Mask.{covers}
use r_wg.Cidr.Covers.{covered, IsNormal}
use r_wg.Cidr.Normalize.{
  insert, sort, dedup_from, dedup, drop_covered, merge_pass, round, merge_loop, normalize_prefixes,
}
use r_wg.Cidr.Normalize.Cover.{covered-normalize}
use r_wg.Cidr.Normalize.Fixed.{IsFixed, normalize-IsFixed}
use r_wg.Cidr.Exclude.{
  subtract_bits, subtract_prefix, subtract_each, subtract_all, exclude_loop, compute_cidr_exclusion,
  CidrExclusionResult, remaining_of,
}
use r_wg.Cidr.Exclude.Sets.{IsExclusion, compute_cidr_exclusion-IsExclusion}
use r_wg.Cidr.Exclude.Hosts.{host, next_addr, subtract_first_loses_second}

abbrev ten : ℕ → ℕ → ℕ → AllowedIp
ten c d cidr = record { addr = v4 (10 * 16777216 + c * 256 + d); cidr = cidr }

-- 10.0.0.0/24 without 10.0.0.64/26
abbrev includes : List AllowedIp
includes = ten 0 0 24 ∷ []

abbrev excludes : List AllowedIp
excludes = ten 0 64 26 ∷ []

partial_overlap :
    map_ok remaining_of (compute_cidr_exclusion includes excludes 32)
    ≡ ok (ten 0 0 26 ∷ ten 0 128 25 ∷ [])
unfolding apply_v4_mask apply_v6_mask apply_mask host_increment add_offset canonicalize
    contains_prefix overlaps key_gt split_children ordered parent_of sibling_parent insert sort
    dedup_from dedup drop_covered merge_pass round merge_loop normalize_prefixes subtract_bits
    subtract_prefix subtract_each subtract_all exclude_loop compute_cidr_exclusion
partial_overlap = refl

merged_siblings : (normalize_prefixes (ten 0 1 25 ∷ ten 0 129 25 ∷ [])).0 ≡ ten 0 0 24 ∷ []
unfolding apply_v4_mask apply_v6_mask apply_mask host_increment add_offset canonicalize
    contains_prefix overlaps key_gt split_children ordered parent_of sibling_parent insert sort
    dedup_from dedup drop_covered merge_pass round merge_loop normalize_prefixes
merged_siblings = refl

includes_fit : IsPrefix (ten 0 0 24)
includes_fit = record { ip = omega arith; fits = omega arith }

excludes_fit : IsPrefix (ten 0 64 26)
excludes_fit = record { ip = omega arith; fits = omega arith }

-- Both branches of the exact statement, at the result of the test.
abbrev exclusion : CidrExclusionResult
exclusion = record {
  normalized_includes = includes;
  normalized_excludes = excludes;
  remaining = ten 0 0 26 ∷ ten 0 128 25 ∷ [];
  stats = record {
    input_include_count = 1;
    input_exclude_count = 1;
    normalized_include_count = 1;
    normalized_exclude_count = 1;
    output_count = 2;
    host_bits_normalized = false;
    merged_prefixes = false;
  };
}

exclusion_computed : compute_cidr_exclusion includes excludes 32 ≡ ok exclusion
unfolding apply_v4_mask apply_v6_mask apply_mask host_increment add_offset canonicalize
    contains_prefix overlaps key_gt split_children ordered parent_of sibling_parent insert sort
    dedup_from dedup drop_covered merge_pass round merge_loop normalize_prefixes subtract_bits
    subtract_prefix subtract_each subtract_all exclude_loop compute_cidr_exclusion
exclusion_computed = refl

compute_cidr_exclusion-IsExclusion_example : IsExclusion includes excludes exclusion
compute_cidr_exclusion-IsExclusion_example =
    compute_cidr_exclusion-IsExclusion includes excludes 32 exclusion (includes_fit, tt)
      (excludes_fit, tt) exclusion_computed

covered-normalize_example :
    covered (normalize_prefixes (ten 0 1 25 ∷ [])).0 (v4 7) ≡ covered (ten 0 1 25 ∷ []) (v4 7)
covered-normalize_example =
    covered-normalize (ten 0 1 25 ∷ []) (v4 7) (record { ip = omega arith; fits = omega arith }, tt)

normalize-IsFixed_example : IsFixed (normalize_prefixes (ten 0 1 25 ∷ ten 0 129 25 ∷ [])).0
normalize-IsFixed_example = normalize-IsFixed (ten 0 1 25 ∷ ten 0 129 25 ∷ [])

pair-IsNormal : IsNormal (ten 0 0 31)
unfolding apply_v4_mask apply_v6_mask apply_mask host_increment add_offset canonicalize
    contains_prefix overlaps key_gt split_children ordered parent_of sibling_parent
pair-IsNormal = record {
  prefix = record { ip = omega arith; fits = omega arith };
  canonical = refl;
}

subtract_first_loses_second_example :
    covers (host (v4 167772160)) (next_addr (v4 167772160)) ≡ false
subtract_first_loses_second_example =
    (subtract_first_loses_second (ten 0 0 31) [] 8 pair-IsNormal refl (omega arith)).2
