-- ===== src/Gmail/Directory.antt =====
-- `ensure_label` against the labels of the mailbox: whatever the cache holds, it finds or creates.
use mail_transporter.Base.{
  true, ◌++◌, ◌≡◌, refl, ap, ◌∙◌, inl, inr, Option, none, some, Option-cases, List, [], ◌∷◌, Text,
  text_eq_refl, lower, Result, ok,
}
use mail_transporter.Gmail.Api.{Api, answered, Label}
use mail_transporter.Gmail.Client.{
  Session, executed, execute, keep_label, found_label, look_up_label, label_or, ensure_label,
  same_name, cached,
}
use mail_transporter.Gmail.Standing.{label_of, Knows, first-created, Knows-append, cached-Stands}

-- Gmail with its labels: it lists them as they are, and appends a label that it creates.
pub record IsDirectory {W : Type 0} (api : Api W) (labels : W → List Label) : Type 0 where
  pub lists :
      (w : W)
      → ((api.list_labels w).0 ≡ answered (labels w)) × (labels (api.list_labels w).1 ≡ labels w)
  pub creates :
      (name : Text) (w : W)
      → (id : Text) × ((api.create_label name w).0 ≡ answered id)
        × (labels (api.create_label name w).1
            ≡ labels w ++ (record { id = id; name = some name } ∷ []))

-- The specification: the labels stay as they are if one has the name, in whatever case, and get one
-- with this name otherwise.
abbrev pub found_or_created : Text → Text → List Label → Option Label → List Label
found_or_created name id labels none = labels ++ (record { id = id; name = some name } ∷ [])
found_or_created name id labels (some label) = labels

module _ {W : Type 0} (api : Api W) (labels : W → List Label) (directory : IsDirectory api labels)
    (name : Text) where
  -- The id is that of the label of this name, the labels are as the specification says, and the cache
  -- is right about them.
  abbrev pub Implements : List Label → Result Text → Session W → Type 0
  Implements before outcome s =
      (id : Text) × (outcome ≡ ok id)
      × (labels s.world ≡ found_or_created name id before (label_of name before))
      × ((label : Label) × (label_of name (labels s.world) ≡ some label) × (label.id ≡ id))
      × Knows s.label_cache (labels s.world)

  there_already :
      (id : Text) (before : List Label) (label : Label)
      → label_of name before ≡ some label
      → before ≡ found_or_created name id before (label_of name before)
  there_already id before label there = rw there refl

  from_cache :
      (s : Session W) (id : Text)
      → Knows s.label_cache (labels s.world)
      → cached name s.label_cache ≡ some id
      → Implements (labels s.world) (ensure_label api name s).0 (ensure_label api name s).1
  unfolding ensure_label label_or
  from_cache s id knows there =
      let (label, known, same) = cached-Stands s.label_cache (labels s.world) name id knows there in
      rw there
        (id, refl, there_already id (labels s.world) label known, (label, known, same), knows)

  same_call :
      (before : List Label) (x : Result Text × Session W) (outcome : Result Text) (t : Session W)
      → x ≡ (outcome, t)
      → Implements before outcome t
      → Implements before x.0 x.1
  same_call before x outcome t e h = rw e h

  ends_found :
      (s : Session W) (label : Label)
      → cached name s.label_cache ≡ none
      → label_of name (labels s.world) ≡ some label
      → ensure_label api name s ≡ (
        ok label.id,
        record {
          world = (api.list_labels s.world).1;
          label_cache = (name, label.id) ∷ s.label_cache;
        },
      )
  unfolding ensure_label label_or look_up_label execute executed found_label keep_label
  ends_found s label new known = rw (new, (directory.lists s.world).0, known) refl

  ends_created :
      (s : Session W) (id : Text)
      → cached name s.label_cache ≡ none
      → label_of name (labels s.world) ≡ none
      → (api.create_label name (api.list_labels s.world).1).0 ≡ answered id
      → ensure_label api name s ≡ (
        ok id,
        record {
          world = (api.create_label name (api.list_labels s.world).1).1;
          label_cache = (name, id) ∷ s.label_cache;
        },
      )
  unfolding ensure_label label_or look_up_label execute executed found_label keep_label
  ends_created s id new absent made = rw (new, (directory.lists s.world).0, absent, made) refl

  Knows-same :
      (cache : List (Text × Text)) (before after : List Label)
      → after ≡ before
      → Knows cache before
      → Knows cache after
  Knows-same cache before after e h = rw e h

  from_listing :
      (s : Session W) (label : Label)
      → Knows s.label_cache (labels s.world)
      → cached name s.label_cache ≡ none
      → label_of name (labels s.world) ≡ some label
      → Implements (labels s.world) (ensure_label api name s).0 (ensure_label api name s).1
  from_listing s label knows new known =
      let kept = (directory.lists s.world).1 in
      same_call (labels s.world) _ _ _ (ends_found s label new known) (
        label.id,
        refl,
        kept ∙ there_already label.id (labels s.world) label known,
        (label, ap (label_of name) kept ∙ known, refl),
        Knows-same ((name, label.id) ∷ s.label_cache) (labels s.world) _ kept
            ((label, known, refl), knows),
      )

  not_there :
      (id : Text) (before : List Label)
      → label_of name before ≡ none
      → before ++ (record { id = id; name = some name } ∷ [])
        ≡ found_or_created name id before (label_of name before)
  not_there id before absent = rw absent refl

  own_name : (id : Text) → same_name name (record { id = id; name = some name }) ≡ true
  unfolding same_name
  own_name id = text_eq_refl (lower name)

  from_creation :
      (s : Session W)
      → Knows s.label_cache (labels s.world)
      → cached name s.label_cache ≡ none
      → label_of name (labels s.world) ≡ none
      → Implements (labels s.world) (ensure_label api name s).0 (ensure_label api name s).1
  from_creation s knows new absent =
      let (id, made, grown) = directory.creates name (api.list_labels s.world).1 in
      let label : Label = record { id = id; name = some name } in
      let now = grown ∙ ap (λ (ls : List Label). ls ++ (label ∷ [])) (directory.lists s.world).1 in
      let found = first-created (same_name name) (labels s.world) label absent (own_name id) in
      same_call (labels s.world) _ _ _ (ends_created s id new absent made) (
        id,
        refl,
        now ∙ not_there id (labels s.world) absent,
        (label, ap (label_of name) now ∙ found, refl),
        Knows-same ((name, id) ∷ s.label_cache) (labels s.world ++ (label ∷ [])) _ now
            ((label, found, refl), Knows-append s.label_cache (labels s.world) (label ∷ []) knows),
      )

  -- Over a Gmail that lists its labels as they are and appends what it creates, and with a cache
  -- that is right about them, `ensure_label` returns, and whether it looked into the cache, found the
  -- label in the listing or created it, the outcome is that of the specification: the labels are as
  -- they were if one has the name, up to case, and have one more with this name otherwise; the id is
  -- that of the first label of the name; and the cache is right about the labels again.
  pub ensure_label-Implements :
      (s : Session W)
      → Knows s.label_cache (labels s.world)
      → Implements (labels s.world) (ensure_label api name s).0 (ensure_label api name s).1
  ensure_label-Implements s knows = elim (Option-cases (cached name s.label_cache)) [
    | inr (id, there) ↦ from_cache s id knows there
    | inl new ↦ elim (Option-cases (label_of name (labels s.world))) [
      | inr (label, known) ↦ from_listing s label knows new known
      | inl absent ↦ from_creation s knows new absent
    ]
  ]
