-- ===== src/Library/Deletes.antt =====
-- `plan_delete` and `plan_post_delete_selection`
use mathlib.Core.List.{List, [], ◌∷◌}
use r_wg.Base.{
  ℕ, ◌-◌, min, Bool, false, not, ◌||◌, Option, none, some, any, is_empty, ◌==◌, if◌then◌else◌,
  get_elem?, length,
}
use r_wg.Config.{Text}
use r_wg.Library.{StoredConfig, text_eq, has_id}

pub data DeletePolicy : Type 0 where
  block_running skip_running : DeletePolicy

pub record DeleteConfigsRequest : Type 0 where
  pub requested_ids : List ℕ
  pub existing : List StoredConfig
  pub running_id : Option ℕ
  pub running_name : Option Text
  pub policy : DeletePolicy

-- The configurations that are deleted, and the names of those that are skipped.
pub record DeleteConfigsPlan : Type 0 where
  pub deleted : List StoredConfig
  pub skipped_running : List Text

pub data DeleteConfigsDecision : Type 0 where
  no_selection blocked_running : DeleteConfigsDecision
  only_skipped_running : List Text → DeleteConfigsDecision
  delete : DeleteConfigsPlan → DeleteConfigsDecision

abbrev pub is_requested : DeleteConfigsRequest → StoredConfig → Bool
is_requested r c = any (λ i. c.id == i) r.requested_ids

abbrev pub has_name : Option Text → Text → Bool
has_name none name = false
has_name (some n) name = text_eq n name

abbrev pub is_running : DeleteConfigsRequest → StoredConfig → Bool
is_running r c = has_id r.running_id c.id || has_name r.running_name c.name

abbrev pub skip : StoredConfig → DeleteConfigsPlan → DeleteConfigsPlan
skip c p = record p { skipped_running = c.name ∷ p.skipped_running }

abbrev pub drop : StoredConfig → DeleteConfigsPlan → DeleteConfigsPlan
drop c p = record p { deleted = c ∷ p.deleted }

abbrev pub map_some :
    (DeleteConfigsPlan → DeleteConfigsPlan) → Option DeleteConfigsPlan → Option DeleteConfigsPlan
map_some f none = none
map_some f (some p) = some (f p)

-- A running configuration ends the loop, or is skipped.
abbrev pub on_running :
    DeletePolicy → StoredConfig → Option DeleteConfigsPlan → Option DeleteConfigsPlan
on_running DeletePolicy.block_running c p = none
on_running DeletePolicy.skip_running c p = map_some (skip c) p

-- The loop over the configurations; none is the return from it.
unfoldable pub delete_loop : DeleteConfigsRequest → List StoredConfig → Option DeleteConfigsPlan
delete_loop r [] = some (record { deleted = []; skipped_running = [] })
delete_loop r (c ∷ cs) =
    let rest = delete_loop r cs in
    if not (is_requested r c)
    then rest
    else (if is_running r c then on_running r.policy c rest else map_some (drop c) rest)

abbrev pub decide_delete : Option DeleteConfigsPlan → DeleteConfigsDecision
decide_delete none = DeleteConfigsDecision.blocked_running
decide_delete (some p) =
    if is_empty p.deleted
    then (if is_empty p.skipped_running
        then DeleteConfigsDecision.no_selection
        else DeleteConfigsDecision.only_skipped_running p.skipped_running)
    else DeleteConfigsDecision.delete p

unfoldable pub plan_delete : DeleteConfigsRequest → DeleteConfigsDecision
unfolding delete_loop
plan_delete r =
    if is_empty r.requested_ids
    then DeleteConfigsDecision.no_selection
    else decide_delete (delete_loop r r.existing)

pub data PostDeleteSelection : Type 0 where
  clear : PostDeleteSelection
  keep : ℕ → PostDeleteSelection
  select_fallback : ℕ → PostDeleteSelection

-- `remaining_ids[index]`: none stands for the panic of an index out of range.
abbrev pub select : Option ℕ → Option PostDeleteSelection
select none = none
select (some i) = some (PostDeleteSelection.select_fallback i)

abbrev pub fallback : List ℕ → Option ℕ → Option PostDeleteSelection
fallback remaining none = some PostDeleteSelection.clear
fallback remaining (some previous) =
    select (get_elem? remaining (min previous (length remaining - 1)))

abbrev pub keep_or : List ℕ → Option ℕ → Option PostDeleteSelection → Option PostDeleteSelection
keep_or remaining none other = other
keep_or remaining (some id) other =
    if any (λ i. id == i) remaining then some (PostDeleteSelection.keep id) else other

unfoldable pub plan_post_delete_selection :
    List ℕ → Option ℕ → Option ℕ → Option PostDeleteSelection
plan_post_delete_selection remaining selected index =
    if is_empty remaining
    then some PostDeleteSelection.clear
    else keep_or remaining selected (fallback remaining index)
