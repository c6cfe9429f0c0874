-- ===== src/Cockpit/Drag.antt =====
-- The drag of files over the page (frontend/src/components/cockpit/CockpitLayout.tsx) and over the
-- drop zone (frontend/src/components/upload/DropZone.tsx): a counter of entered nodes.
use open_pm.Common.{
  ℕ, suc, ◌-◌, ◌≡◌, Bool, true, false, if◌then◌else◌, ◌==◌, ltb, List, [], ◌∷◌, arith,
}

pub record DragState : Type 0 where
  pub depth : ℕ
  pub page_dragging : Bool

abbrev pub not_dragged : DragState
not_dragged = record { depth = 0; page_dragging = false }

-- An event, with `hasFiles`.
pub data DragEvent : Type 0 where
  enter leave drop_files : Bool → DragEvent

unfoldable pub on_enter : DragState → DragState
on_enter s =
    let depth = suc s.depth in
    record { depth = depth; page_dragging = if depth == 1 then true else s.page_dragging }

unfoldable pub on_leave : DragState → DragState
on_leave s =
    let depth = s.depth - 1 in
    record { depth = depth; page_dragging = if depth == 0 then false else s.page_dragging }

unfoldable pub on_drag : DragEvent → DragState → DragState
on_drag (enter files) s = if files then on_enter s else s
on_drag (leave files) s = if files then on_leave s else s
on_drag (drop_files files) s = if files then not_dragged else s

unfoldable pub drag : List DragEvent → DragState → DragState
drag [] s = s
drag (e ∷ es) s = drag es (on_drag e s)

abbrev pub IsShown : DragState → Type 0
IsShown s = s.page_dragging ≡ ltb 0 s.depth

on_drag-IsShown : (e : DragEvent) (s : DragState) → IsShown s → IsShown (on_drag e s)
unfolding on_drag on_enter on_leave
on_drag-IsShown (enter files) s h = ground arith
on_drag-IsShown (leave files) s h = ground arith
on_drag-IsShown (drop_files files) s h = ground arith

-- After any drag events on a page that nothing is dragged over, the overlay is shown exactly while
-- the counter of entered nodes is not zero.
pub drag-IsShown : (es : List DragEvent) (s : DragState) → IsShown s → IsShown (drag es s)
unfolding drag
drag-IsShown [] s h = h
drag-IsShown (e ∷ es) s h = drag-IsShown es (on_drag e s) (on_drag-IsShown e s h)
