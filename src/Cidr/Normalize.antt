-- ===== src/Cidr/Normalize.antt =====
-- src/backend/wg/tools/cidr.rs: `normalize_prefixes`, the normal form of a list of prefixes.
pub mod Order
pub mod Merge
pub mod Cover
pub mod Fixed
use r_wg.Base.{
  ℕ, zero, suc, Bool, true, false, not, ◌||◌, Option, none, some, List, [], ◌∷◌, ◌++◌, map,
  if◌then◌else◌, length, any,
}
use r_wg.Net.{AllowedIp, allowed_eq}
use r_wg.Cidr.{canonicalize, contains_prefix, key_gt, sibling_parent}

-- `sort_by(prefix_sort_key)`: the standard library's sort is stable, and so is this one.
unfoldable pub insert : AllowedIp → List AllowedIp → List AllowedIp
insert p [] = p ∷ []
insert p (q ∷ qs) = if key_gt p q then q ∷ insert p qs else p ∷ q ∷ qs

unfoldable pub sort : List AllowedIp → List AllowedIp
sort [] = []
sort (p ∷ ps) = insert p (sort ps)

-- `dedup` drops what equals the element kept before it.
unfoldable pub dedup_from : AllowedIp → List AllowedIp → List AllowedIp
dedup_from last [] = []
dedup_from last (p ∷ ps) =
    let same = allowed_eq last p in
    let rest = dedup_from (if same then last else p) ps in if same then rest else p ∷ rest

unfoldable pub dedup : List AllowedIp → List AllowedIp
unfolding dedup_from
dedup [] = []
dedup (p ∷ ps) = p ∷ dedup_from p ps

-- Both loops that skip a prefix which an earlier one contains, with whether any was skipped.
unfoldable pub drop_covered : List AllowedIp → List AllowedIp → List AllowedIp × Bool
drop_covered kept [] = (kept, false)
drop_covered kept (p ∷ ps) =
    let covered = any (λ existing. contains_prefix existing p) kept in
    let (out, dropped) = drop_covered (if covered then kept else kept ++ p ∷ []) ps in
    (out, covered || dropped)

-- One pass over the sorted prefixes, with whether a pair was merged.
unfoldable pub merge_pass : List AllowedIp → List AllowedIp × Bool
merge_pass [] = ([], false)
merge_pass (p ∷ []) = (p ∷ [], false)
merge_pass (p ∷ q ∷ rest) = elim (sibling_parent p q) [
  | some parent ↦ let (out, changed) = merge_pass rest in (parent ∷ out, true)
  | none ↦ let (out, changed) = merge_pass (q ∷ rest) in (p ∷ out, changed)
]

pub record Round : Type 0 where
  pub filtered : List AllowedIp
  pub merged : Bool
  pub changed : Bool

unfoldable pub round : List AllowedIp → Round
round filtered =
    let (merged, some_merged) = merge_pass (sort filtered) in
    let (collapsed, some_dropped) = drop_covered [] merged in
    record { filtered = collapsed; merged = some_merged; changed = some_merged || some_dropped }

-- `while changed`, on fuel.
unfoldable pub merge_loop : ℕ → List AllowedIp → Bool → List AllowedIp × Bool
merge_loop zero filtered merged = (filtered, merged)
merge_loop (suc fuel) filtered merged =
    let r = round filtered in
    let rest = merge_loop fuel r.filtered (merged || r.merged) in
    if r.changed then rest else (r.filtered, merged || r.merged)

pub record NormalizeStats : Type 0 where
  pub count : ℕ
  pub host_bits_normalized : Bool
  pub merged_prefixes : Bool

-- A round that changes anything leaves one prefix fewer, so the length is fuel enough.
unfoldable pub normalize_prefixes : List AllowedIp → List AllowedIp × NormalizeStats
normalize_prefixes [] =
    ([], record { count = 0; host_bits_normalized = false; merged_prefixes = false })
normalize_prefixes (p ∷ ps) =
    let prefixes = p ∷ ps in
    let canonical = map canonicalize prefixes in
    let (filtered, _) = drop_covered [] (dedup (sort canonical)) in
    let (out, merged) = merge_loop (suc (length filtered)) filtered false in
    (
      out,
      record {
        count = length out;
        host_bits_normalized = any (λ q. not (allowed_eq (canonicalize q) q)) prefixes;
        merged_prefixes = merged;
      },
    )
