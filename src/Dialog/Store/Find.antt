-- ===== src/Dialog/Store/Find.antt =====
-- Finding a dialog after one was put or erased.
use project_mediaswitch.Base.{
  ◌≡◌, refl, sym, ap, ◌∙◌, Bool, true, false, [], ◌∷◌, Bytes, none, some, bytes_eq, bytes_eq_iff,
  if◌then◌else◌, inl, inr, Bool-cases, some_injective,
}
use project_mediaswitch.Dialog.{Dialog}
use project_mediaswitch.Dialog.Store.{Dialogs, find_dialog, erase_dialog, put_dialog, settle}

bytes_eq_other : (i k j : Bytes) → i ≡ k → bytes_eq k j ≡ false → bytes_eq i j ≡ false
bytes_eq_other i k j e h = rw e h

find-cons-true :
    (k : Bytes) (d : Dialog) (ds : Dialogs)
    → bytes_eq d.call_id k ≡ true
    → find_dialog k (d ∷ ds) ≡ some d
unfolding find_dialog
find-cons-true k d ds h = ap (λ b. if b then some d else find_dialog k ds) h

find-cons-false :
    (k : Bytes) (d : Dialog) (ds : Dialogs)
    → bytes_eq d.call_id k ≡ false
    → find_dialog k (d ∷ ds) ≡ find_dialog k ds
unfolding find_dialog
find-cons-false k d ds h = ap (λ b. if b then some d else find_dialog k ds) h

find-cons :
    (j : Bytes) (d : Dialog) (cs bs : Dialogs)
    → find_dialog j cs ≡ find_dialog j bs
    → find_dialog j (d ∷ cs) ≡ find_dialog j (d ∷ bs)
unfolding find_dialog
find-cons j d cs bs e = ap (λ o. if bytes_eq d.call_id j then some d else o) e

pub find_dialog-erase_other :
    (k j : Bytes) (ds : Dialogs)
    → bytes_eq k j ≡ false
    → find_dialog j (erase_dialog k ds) ≡ find_dialog j ds
unfolding erase_dialog
find_dialog-erase_other k j [] h = refl
find_dialog-erase_other k j (d ∷ ds) h = elim (Bool-cases (bytes_eq d.call_id k)) [
  | inl y ↦
      ap (λ b. find_dialog j (if b then erase_dialog k ds else d ∷ erase_dialog k ds)) y
      ∙ find_dialog-erase_other k j ds h
      ∙ sym (find-cons-false j d ds (bytes_eq_other _ k j ((bytes_eq_iff d.call_id k).0 y) h))
  | inr n ↦
      ap (λ b. find_dialog j (if b then erase_dialog k ds else d ∷ erase_dialog k ds)) n
      ∙ find-cons j d _ ds (find_dialog-erase_other k j ds h)
]

find_dialog-erase_same : (k : Bytes) (ds : Dialogs) → find_dialog k (erase_dialog k ds) ≡ none
unfolding erase_dialog find_dialog
find_dialog-erase_same k [] = refl
find_dialog-erase_same k (d ∷ ds) = elim (Bool-cases (bytes_eq d.call_id k)) [
  | inl y ↦
      ap (λ b. find_dialog k (if b then erase_dialog k ds else d ∷ erase_dialog k ds)) y
      ∙ find_dialog-erase_same k ds
  | inr n ↦
      ap (λ b. find_dialog k (if b then erase_dialog k ds else d ∷ erase_dialog k ds)) n
      ∙ find-cons-false k d _ n
      ∙ find_dialog-erase_same k ds
]

pub find_dialog-put_other :
    (k j : Bytes) (new : Dialog) (ds : Dialogs)
    → new.call_id ≡ k
    → bytes_eq k j ≡ false
    → find_dialog j (put_dialog k new ds) ≡ find_dialog j ds
unfolding put_dialog
find_dialog-put_other k j new [] e h = find-cons-false j new [] (bytes_eq_other _ k j e h)
find_dialog-put_other k j new (d ∷ ds) e h = elim (Bool-cases (bytes_eq d.call_id k)) [
  | inl y ↦
      ap (λ b. find_dialog j (if b then new ∷ ds else d ∷ put_dialog k new ds)) y
      ∙ find-cons-false j new ds (bytes_eq_other _ k j e h)
      ∙ sym (find-cons-false j d ds (bytes_eq_other _ k j ((bytes_eq_iff d.call_id k).0 y) h))
  | inr n ↦
      ap (λ b. find_dialog j (if b then new ∷ ds else d ∷ put_dialog k new ds)) n
      ∙ find-cons j d _ ds (find_dialog-put_other k j new ds e h)
]

find_dialog-put_same :
    (k : Bytes) (new : Dialog) (ds : Dialogs)
    → new.call_id ≡ k
    → find_dialog k (put_dialog k new ds) ≡ some new
unfolding put_dialog
find_dialog-put_same k new [] e = find-cons-true k new [] ((bytes_eq_iff new.call_id k).1 e)
find_dialog-put_same k new (d ∷ ds) e = elim (Bool-cases (bytes_eq d.call_id k)) [
  | inl y ↦
      ap (λ b. find_dialog k (if b then new ∷ ds else d ∷ put_dialog k new ds)) y
      ∙ find-cons-true k new ds ((bytes_eq_iff new.call_id k).1 e)
  | inr n ↦
      ap (λ b. find_dialog k (if b then new ∷ ds else d ∷ put_dialog k new ds)) n
      ∙ find-cons-false k d _ n
      ∙ find_dialog-put_same k new ds e
]

pub find_dialog-settle_other :
    (k j : Bytes) (ds : Dialogs) (d : Dialog)
    → d.call_id ≡ k
    → bytes_eq k j ≡ false
    → find_dialog j (settle k ds d) ≡ find_dialog j ds
find_dialog-settle_other k j ds d e h = kept d.tracked
  where
    kept :
        (b : Bool)
        → find_dialog j (if b then put_dialog k d ds else erase_dialog k ds) ≡ find_dialog j ds
    kept true = find_dialog-put_other k j d ds e h
    kept false = find_dialog-erase_other k j ds h

pub find_dialog-settle_same :
    (k : Bytes) (ds : Dialogs) (d d' : Dialog)
    → d.call_id ≡ k
    → find_dialog k (settle k ds d) ≡ some d'
    → d ≡ d'
find_dialog-settle_same k ds d d' e = kept d.tracked
  where
    kept :
        (b : Bool)
        → find_dialog k (if b then put_dialog k d ds else erase_dialog k ds) ≡ some d'
        → d ≡ d'
    kept true h = some_injective (sym (find_dialog-put_same k d ds e) ∙ h)
    kept false h = elim (absent (sym (find_dialog-erase_same k ds) ∙ h)) [ ]
      where
        absent : none ≡ some d' → ⊥
        absent x = cc
