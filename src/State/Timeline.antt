-- ===== src/State/Timeline.antt =====
-- The reading of a change of the state in frontend/src/components/state/StateTimeline.tsx.
pub mod Total
use Prim.Native.Char.{code}
use Prim.Native.String
use open_pm.Common.{
  ℕ, suc, zero, ◌+◌, Text, String, Option, none, some, List, [], ◌∷◌, ◌++◌, Bool, true, false, not,
  ◌&&◌, ◌==◌, str_eq, if◌then◌else◌, ◌otherwise◌, Json, arr, obj, Items, nil, cons, Fields, end,
  field, field_in, units, decimal, join_texts, is_empty, map,
}

-- `key.replace(/^core\./, "")`.
abbrev pub strip_string : String → String → Option String
strip_string String.[] s = some s
strip_string (String.◌∷◌ p ps) String.[] = none
strip_string (String.◌∷◌ p ps) (String.◌∷◌ c cs) =
    let rest = strip_string ps cs in if code p == code c then rest else none

unfoldable pub category_label : String → String
category_label key =
    if str_eq key "core.contacts"
    then "Kontakte"
    else if str_eq key "core.open_tasks"
    then "Tasks"
    else if str_eq key "core.deadlines"
    then "Deadlines"
    else if str_eq key "core.decisions"
    then "Entscheidungen"
    else if str_eq key "core.blockers"
    then "Blocker"
    else if str_eq key "dynamic_sections"
    then "Abschnitte"
    else strip_string "core." key otherwise key

pub record DeltaGroup : Type 0 where
  pub key : String
  pub label : String
  pub items : Items

pub record ParsedDelta : Type 0 where
  pub added : List DeltaGroup
  pub removed : List DeltaGroup
  pub modified : List DeltaGroup
  pub total : ℕ

abbrev pub count_items : Items → ℕ
count_items nil = 0
count_items (cons j js) = suc (count_items js)

-- The group of an entry, which is left out unless its value is a list with items.
abbrev pub group_of : String → Json → List DeltaGroup
group_of key (arr (cons j js)) =
    record { key = key; label = category_label key; items = cons j js } ∷ []
group_of key _ = []

unfoldable pub parse_fields : Fields → List DeltaGroup
parse_fields end = []
parse_fields (field key value later) = group_of key value ++ parse_fields later

-- The entries of an array have their places, as `show` prints them, for keys.
unfoldable pub parse_items : (ℕ → String) → ℕ → Items → List DeltaGroup
parse_items show i nil = []
parse_items show i (cons j js) = group_of (show i) j ++ parse_items show (suc i) js

unfoldable pub parse_bucket : (ℕ → String) → Option Json → List DeltaGroup
parse_bucket show (some (obj fields)) = parse_fields fields
parse_bucket show (some (arr items)) = parse_items show 0 items
parse_bucket show _ = []

-- `groups.reduce((n, g) => n + g.items.length, 0)`.
unfoldable pub sum_items : List DeltaGroup → ℕ
sum_items [] = 0
sum_items (g ∷ gs) = count_items g.items + sum_items gs

unfoldable pub parse_delta : (ℕ → String) → Fields → ParsedDelta
parse_delta show delta =
    let added = parse_bucket show (field_in "added" delta) in
    let removed = parse_bucket show (field_in "removed" delta) in
    let modified = parse_bucket show (field_in "modified" delta) in
    record {
      added = added;
      removed = removed;
      modified = modified;
      total = sum_items added + sum_items removed + sum_items modified;
    }

pub data Net : Type 0 where
  add_net remove_net mixed_net no_net : Net

abbrev pub net_of : (added removed modified : List DeltaGroup) → Net
net_of (a ∷ as') (r ∷ rs) ms = mixed_net
net_of (a ∷ as') [] ms = add_net
net_of [] (r ∷ rs) ms = remove_net
net_of [] [] (m ∷ ms) = mixed_net
net_of [] [] [] = no_net

abbrev pub part : String → DeltaGroup → Text
part sign g = units sign ++ decimal (count_items g.items) ++ units " " ++ units g.label

unfoldable pub delta_text : ParsedDelta → Text
delta_text d =
    let text =
      join_texts (units " · ")
        (map (part "+") d.added ++ map (part "−") d.removed ++ map (part "~") d.modified) in
    if is_empty text then units "keine Änderungen" else text

unfoldable pub delta_summary : ParsedDelta → Text × Net
delta_summary d = (delta_text d, net_of d.added d.removed d.modified)
