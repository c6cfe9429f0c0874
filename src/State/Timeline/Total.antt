-- ===== src/State/Timeline/Total.antt =====
-- When a change of the state is shown as empty.
use open_pm.Common.{
  ℕ, suc, ◌+◌, ◌<◌, List, [], ◌∷◌, ◌≡◌, ◌↔◌, refl, Option, none, some, Json, obj, arr, Items, nil,
  cons, Fields, end, field, field_in, All, All-append, arith, null, bool, num, str, String,
}
use open_pm.State.Timeline.{
  DeltaGroup, count_items, group_of, parse_fields, parse_items, parse_bucket, sum_items,
  parse_delta, no_net, net_of, delta_summary,
}

abbrev HasItems : DeltaGroup → Type 0
HasItems g = 0 < count_items g.items

group_of-HasItems : (key : String) (value : Json) → All HasItems (group_of key value)
group_of-HasItems key (arr (cons j js)) = (ground arith, tt)
group_of-HasItems key (arr nil) = tt
group_of-HasItems key null = tt
group_of-HasItems key (bool b) = tt
group_of-HasItems key (num n) = tt
group_of-HasItems key (str s) = tt
group_of-HasItems key (obj o) = tt

parse_fields-HasItems : (fields : Fields) → All HasItems (parse_fields fields)
unfolding parse_fields
parse_fields-HasItems end = tt
parse_fields-HasItems (field key value later) =
    All-append HasItems (group_of key value) (parse_fields later) (group_of-HasItems key value)
      (parse_fields-HasItems later)

parse_items-HasItems :
    (show : ℕ → String) (i : ℕ) (items : Items) → All HasItems (parse_items show i items)
unfolding parse_items
parse_items-HasItems show i nil = tt
parse_items-HasItems show i (cons j js) =
    All-append HasItems (group_of (show i) j) (parse_items show (suc i) js)
      (group_of-HasItems (show i) j) (parse_items-HasItems show (suc i) js)

parse_bucket-HasItems :
    (show : ℕ → String) (bucket : Option Json) → All HasItems (parse_bucket show bucket)
unfolding parse_bucket
parse_bucket-HasItems show none = tt
parse_bucket-HasItems show (some (obj fields)) = parse_fields-HasItems fields
parse_bucket-HasItems show (some (arr js)) = parse_items-HasItems show 0 js
parse_bucket-HasItems show (some null) = tt
parse_bucket-HasItems show (some (bool b)) = tt
parse_bucket-HasItems show (some (num n)) = tt
parse_bucket-HasItems show (some (str s)) = tt

net_of-total :
    (added removed modified : List DeltaGroup)
    → All HasItems added
    → All HasItems removed
    → All HasItems modified
    → (net_of added removed modified ≡ no_net)
      ↔ (sum_items added + sum_items removed + sum_items modified ≡ 0)
unfolding sum_items
net_of-total [] [] [] _ _ _ = (λ _. refl, λ _. refl)
net_of-total [] [] (m ∷ ms) _ _ (p, h) = (λ e. cc, λ e. absurd (omega (arith, p, e)))
net_of-total [] (r ∷ rs) ms _ (p, h) _ = (λ e. cc, λ e. absurd (omega (arith, p, e)))
net_of-total (a ∷ others) [] ms (p, h) _ _ = (λ e. cc, λ e. absurd (omega (arith, p, e)))
net_of-total (a ∷ others) (r ∷ rs) ms (p, h) _ _ = (λ e. cc, λ e. absurd (omega (arith, p, e)))

-- For every change that the backend sends, of whatever shape: the timeline calls it without effect
-- exactly when it counts no item in it.
pub delta_summary-total :
    (show : ℕ → String) (delta : Fields)
    → ((delta_summary (parse_delta show delta)).1 ≡ no_net) ↔ ((parse_delta show delta).total ≡ 0)
unfolding delta_summary parse_delta
delta_summary-total show delta =
    net_of-total (parse_bucket show (field_in "added" delta))
      (parse_bucket show (field_in "removed" delta)) (parse_bucket show (field_in "modified" delta))
      (parse_bucket-HasItems show (field_in "added" delta))
      (parse_bucket-HasItems show (field_in "removed" delta))
      (parse_bucket-HasItems show (field_in "modified" delta))
