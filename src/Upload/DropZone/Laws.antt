-- ===== src/Upload/DropZone/Laws.antt =====
-- What the events of an upload change in the list of the drop zone.
use open_pm.Common.{
  String, some, List, [], ◌∷◌, ◌++◌, ◌≡◌, refl, ap, ◌∙◌, Bool, true, false, ltb, str_eq,
  if◌then◌else◌, Json, str, Items, keep, Bool-cases, inl, inr, arith, eq_iff, All,
}
use open_pm.Upload.Response.{
  UploadError, duplicate, unsupported, legacy, syntax, aborted, rejected, upload_file,
}
use open_pm.Upload.Flow.{max_size}
use open_pm.Upload.DropZone.{
  File, error, cancelled, UploadItem, Zone, is_item, change_item, without_item, start_upload,
  on_progress, on_uploaded, remove_item, show_error, cancel_item, on_failed, ZoneEvent, progressed,
  uploaded, removed, cancel_clicked, failed, on_zone, run_zone,
}

-- A change that keeps the identifier.
abbrev KeepsId : (UploadItem → UploadItem) → Type 0
KeepsId change = (it : UploadItem) → (change it).id ≡ it.id

-- The identifiers that an event brings, none of which is `d`.
abbrev pub SparesItem : String → String × ZoneEvent → Type 0
SparesItem d (id, failed file e confirmed again) = (str_eq id d ≡ false) × (str_eq again d ≡ false)
SparesItem d (id, e) = str_eq id d ≡ false

module _ (d : String) where
  item-change_item :
      (id : String) (change : UploadItem → UploadItem) (its : List UploadItem)
      → KeepsId change
      → str_eq id d ≡ false
      → keep (is_item d) (change_item id change its) ≡ keep (is_item d) its
  unfolding change_item keep
  item-change_item id change [] k ne = refl
  item-change_item id change (it ∷ its) k ne = elim (Bool-cases (is_item id it)) [
    | inl e ↦
        let other : is_item d it ≡ false =
          ground (arith, eq_iff it.id id, eq_iff id d, eq_iff it.id d) in
        let changed : is_item d (change it) ≡ false = ap (λ i. str_eq i d) (k it) ∙ other in
        rw (e, other, changed) (item-change_item id change its k ne)
    | inr e ↦
        rw e (ap (λ l. if is_item d it then it ∷ l else l) (item-change_item id change its k ne))
  ]

  item-without_item :
      (id : String) (its : List UploadItem)
      → str_eq id d ≡ false
      → keep (is_item d) (without_item id its) ≡ keep (is_item d) its
  unfolding without_item keep
  item-without_item id [] ne = refl
  item-without_item id (it ∷ its) ne = elim (Bool-cases (is_item id it)) [
    | inl e ↦
        let other : is_item d it ≡ false =
          ground (arith, eq_iff it.id id, eq_iff id d, eq_iff it.id d) in
        rw (e, other) (item-without_item id its ne)
    | inr e ↦ rw e (ap (λ l. if is_item d it then it ∷ l else l) (item-without_item id its ne))
  ]

  item-append :
      (its : List UploadItem) (it : UploadItem)
      → is_item d it ≡ false
      → keep (is_item d) (its ++ it ∷ []) ≡ keep (is_item d) its
  unfolding keep
  item-append [] it ne = rw ne refl
  item-append (jt ∷ its) it ne =
      ap (λ l. if is_item d jt then jt ∷ l else l) (item-append its it ne)

  item-start_upload :
      (id : String) (file : File) (allow : Bool) (z : Zone)
      → str_eq id d ≡ false
      → keep (is_item d) (start_upload id file allow z).items ≡ keep (is_item d) z.items
  unfolding start_upload
  item-start_upload id file allow z ne = elim (Bool-cases (ltb max_size file.size)) [
    | inl e ↦ rw e refl
    | inr e ↦ rw e (item-append z.items _ ne)
  ]

  module _ (show : Json → String) (join : Items → String) where
    item-on_failed :
        (id : String) (file : File) (e : UploadError) (confirmed : Bool) (again : String) (z : Zone)
        → str_eq id d ≡ false
        → str_eq again d ≡ false
        → keep (is_item d) (on_failed show join id file e confirmed again z).items
          ≡ keep (is_item d) z.items
    unfolding on_failed show_error
    item-on_failed id file (duplicate existing name detail) true again z ne new =
        item-start_upload again file true _ new ∙ item-without_item id z.items ne
    item-on_failed id file (duplicate existing name detail) false again z ne new =
        item-without_item id z.items ne
    item-on_failed id file (unsupported allowed hint detail) confirmed again z ne new =
        item-change_item id _ z.items (λ it. refl) ne
    item-on_failed id file (legacy status detail) confirmed again z ne new =
        item-change_item id _ z.items (λ it. refl) ne
    item-on_failed id file syntax confirmed again z ne new =
        item-change_item id _ z.items (λ it. refl) ne

    item-on_zone :
        (id : String) (e : ZoneEvent) (z : Zone)
        → SparesItem d (id, e)
        → keep (is_item d) (on_zone show join id e z).items ≡ keep (is_item d) z.items
    unfolding on_zone on_progress on_uploaded remove_item cancel_item
    item-on_zone id (progressed loaded total) z h = item-change_item id _ z.items (λ it. refl) h
    item-on_zone id uploaded z h = item-change_item id _ z.items (λ it. refl) h
    item-on_zone id removed z h = item-without_item id z.items h
    item-on_zone id cancel_clicked z h = item-change_item id _ z.items (λ it. refl) h
    item-on_zone id (failed file e confirmed again) z (h, new) =
        item-on_failed id file e confirmed again z h new

    -- Whatever happens to other uploads (their progress, success, failure, a second attempt, cancelling
    -- and removal), the entries of the upload `d` in the list stay as they are.
    pub run_zone-others :
        (es : List (String × ZoneEvent)) (z : Zone)
        → All (SparesItem d) es
        → keep (is_item d) (run_zone show join es z).items ≡ keep (is_item d) z.items
    unfolding run_zone
    run_zone-others [] z h = refl
    run_zone-others ((id, e) ∷ es) z (h, later) =
        run_zone-others es (on_zone show join id e z) later ∙ item-on_zone id e z h

-- The item is shown as failed, with a text.
abbrev pub as_failed : String → UploadItem → UploadItem
as_failed text it = record it { status = error; error = some text }

failed-after_cancel :
    (id text : String) (its : List UploadItem)
    → change_item id (as_failed text) (change_item id (λ it. record it { status = cancelled }) its)
      ≡ change_item id (as_failed text) its
unfolding change_item
failed-after_cancel id text [] = refl
failed-after_cancel id text (it ∷ its) = elim (Bool-cases (is_item id it)) [
  | inl e ↦ rw (e, e) (ap (λ l. as_failed text it ∷ l) (failed-after_cancel id text its))
  | inr e ↦ rw (e, e) (ap (λ l. it ∷ l) (failed-after_cancel id text its))
]

-- An upload that the user cancels is shown as failed with the text "aborted", not as cancelled: what
-- its list becomes once the aborted request has been rejected is what it would be without the
-- cancelling, if the request had failed with that text.
pub cancel-aborted :
    (show : Json → String) (join : Items → String) (id again : String) (file : File) (z : Zone)
    → (run_zone show join
        ((id, cancel_clicked) ∷ (id, failed file (legacy 0 (str "aborted")) false again) ∷ [])
        z).items
      ≡ change_item id (as_failed "aborted") z.items
unfolding run_zone on_zone cancel_item on_failed show_error
cancel-aborted show join id again file z = failed-after_cancel id "aborted" z.items

-- The request that is aborted is rejected with that error.
aborted_error : (name : String) → upload_file name aborted ≡ rejected (legacy 0 (str "aborted"))
unfolding upload_file
aborted_error name = refl
