-- ===== src/Gmail/Labels.antt =====
-- The label cache of `ensure_label`.
use mail_transporter.Base.{
  ◌≡◌, refl, ap, ◌∙◌, Option, none, some, List, ◌∷◌, Text, text_eq_refl, Result, ok, raised,
  continue, first,
}
use mail_transporter.Gmail.Api.{Api, Answer, answered, failed, Label}
use mail_transporter.Gmail.Client.{
  Session, executed, found_label, look_up_label, label_or, ensure_label, same_name, cached,
  keep_label,
}

cached_head :
    (name id : Text) (cache : List (Text × Text)) → cached name ((name, id) ∷ cache) ≡ some id
unfolding cached
cached_head name id cache = rw (text_eq_refl name) refl

module _ {W : Type 0} (api : Api W) (name : Text) where
  abbrev Remembers : Result Text × Session W → Type 0
  Remembers (ok id, s) = cached name s.label_cache ≡ some id
  Remembers (raised e, s) = Unit

  created-Remembers :
      (answer : Answer Text) (s : Session W)
      → Remembers (continue (keep_label api name) (executed answer s).0 (executed answer s).1)
  unfolding executed keep_label
  created-Remembers (answered id) s = cached_head name id s.label_cache
  created-Remembers (failed failure) s = tt

  found_label-Remembers :
      (label : Option Label) (s : Session W) → Remembers (found_label api name label s)
  unfolding found_label
  found_label-Remembers (some label) s =
      unfold keep_label in cached_head name label.id s.label_cache
  found_label-Remembers none s = created-Remembers (api.create_label name s.world).0 _

  listed-Remembers :
      (answer : Answer (List Label)) (s : Session W)
      → Remembers (
          continue
            (λ listing. found_label api name (first (same_name name) listing))
            (executed answer s).0
            (executed answer s).1)
  unfolding executed
  listed-Remembers (answered listing) s = found_label-Remembers (first (same_name name) listing) s
  listed-Remembers (failed failure) s = tt

  label_or-Remembers :
      (known : Option Text) (s : Session W)
      → cached name s.label_cache ≡ known
      → Remembers (label_or api name known s)
  unfolding label_or look_up_label
  label_or-Remembers (some id) s e = e
  label_or-Remembers none s e = listed-Remembers (api.list_labels s.world).0 _

  ensure_label-Remembers : (s : Session W) → Remembers (ensure_label api name s)
  unfolding ensure_label
  ensure_label-Remembers s = label_or-Remembers (cached name s.label_cache) s refl

  remembered :
      (x : Result Text × Session W) (id : Text)
      → Remembers x
      → x.0 ≡ ok id
      → cached name x.1.label_cache ≡ some id
  remembered (ok i, s) id h e = h ∙ ap some (ok_injective e)
    where
      ok_injective : ok i ≡ ok id → i ≡ id
      ok_injective p = cc
  remembered (raised x, s) id h e = cc

  -- If `ensure_label` returns an id, then a second call for the same name returns the same id and
  -- leaves the client and the world as they are.
  ensure_label_twice :
      (s : Session W) (id : Text)
      → (ensure_label api name s).0 ≡ ok id
      → ensure_label api name (ensure_label api name s).1 ≡ (ok id, (ensure_label api name s).1)
  ensure_label_twice s id e =
      let known = remembered (ensure_label api name s) id (ensure_label-Remembers s) e in
      again (ensure_label api name s).1 known
    where
      again :
          (t : Session W)
          → cached name t.label_cache ≡ some id
          → ensure_label api name t ≡ (ok id, t)
      again t k = unfold ensure_label label_or in rw k refl

  -- If the name is not cached and the listing has an entry of that name, up to case, then the id of
  -- the first such entry is returned, and listing the labels was the only call.
  ensure_label-existing :
      (s : Session W) (listing : List Label) (label : Label)
      → cached name s.label_cache ≡ none
      → (api.list_labels s.world).0 ≡ answered listing
      → first (same_name name) listing ≡ some label
      → ((ensure_label api name s).0 ≡ ok label.id)
        × ((ensure_label api name s).1.world ≡ (api.list_labels s.world).1)
  unfolding ensure_label label_or look_up_label found_label keep_label
  ensure_label-existing s listing label new listed there =
      (rw (new, listed, there) refl, rw (new, listed, there) refl)
