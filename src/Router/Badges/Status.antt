-- ===== src/Router/Badges/Status.antt =====
-- app/routers/v1/badges.py: the statuses of the responses, and those that an endpoint documents.
use social_badge_api.Common.{
  ℕ, ◌≡◌, refl, Bool, true, false, Option, List, [], ◌∷◌, Text, arith, ltb, length, ◌+◌, ◌++◌, ◌≤◌,
  some, codes, inl, inr, Option-cases, length-append,
}
use social_badge_api.Common.Exec.{Result, ok, err, ◌>>=◌}
use social_badge_api.Common.Sets.{is_in}
use social_badge_api.Content.State.{
  Env, World, ContentError, badge_not_found, not_badge_owner, badge_already_published,
  template_not_found, template_not_active, value_error, integrity_error, database_failed, Badge,
}
use social_badge_api.Badge.{
  create_badge, get_badge_by_id, publish_badge, unpublish_badge, delete_badge, try_delete,
  commit_unique, increment_template_badge_count, kept,
}
use social_badge_api.Badge.Edit.{FieldUpdates, check_access, edit_badge, duplicate_badge}
use social_badge_api.Router.{
  ApiError, refusal, catching, owner_clauses, global_exception_handler, status_of,
}
use social_badge_api.Router.Badges.{
  create_clauses, publish_clauses, edit_clauses, create_instance, get_single_badge, publish,
  unpublish, duplicate, remove_badge, update_badge, is_object, detail,
}

-- The keys of `responses` in the decorators.
abbrev pub create_responses : List ℕ
create_responses = 201 ∷ 400 ∷ 401 ∷ 404 ∷ 422 ∷ 429 ∷ []

abbrev pub owner_responses : List ℕ
owner_responses = 200 ∷ 401 ∷ 403 ∷ 404 ∷ 429 ∷ []

abbrev pub publish_responses : List ℕ
publish_responses = 200 ∷ 401 ∷ 403 ∷ 404 ∷ 409 ∷ 429 ∷ []

abbrev pub duplicate_responses : List ℕ
duplicate_responses = 201 ∷ 401 ∷ 403 ∷ 404 ∷ 429 ∷ []

abbrev pub remove_responses : List ℕ
remove_responses = 204 ∷ 401 ∷ 403 ∷ 404 ∷ 429 ∷ []

abbrev pub public_responses : List ℕ
public_responses = 200 ∷ 404 ∷ 429 ∷ []

abbrev pub edit_responses : List ℕ
edit_responses = 200 ∷ 401 ∷ 403 ∷ 404 ∷ 422 ∷ 429 ∷ []

-- The response has one of the statuses.
abbrev pub Documented : {A : Type 0} → ℕ → List ℕ → Result ApiError A → Type 0
Documented success documented r = is_in (status_of success r) documented ≡ true

-- The errors that a service may raise.
abbrev Raises : {W A : Type 0} → (ContentError → Bool) → Result ContentError A × W → Type 0
Raises may (ok a, w) = Unit
Raises may (err x, w) = may x ≡ true

abbrev of_owner : ContentError → Bool
of_owner badge_not_found = true
of_owner not_badge_owner = true
of_owner x = false

abbrev of_publish : ContentError → Bool
of_publish badge_already_published = true
of_publish integrity_error = true
of_publish x = of_owner x

abbrev of_creation : ContentError → Bool
of_creation template_not_found = true
of_creation template_not_active = true
of_creation x = false

abbrev of_edit : ContentError → Bool
of_edit value_error = true
of_edit integrity_error = true
of_edit database_failed = true
of_edit x = of_owner x

-- Where every error that a service may raise leads to a documented status, so does every call.
documents :
    {W A : Type 0} (may : ContentError → Bool) (clauses : ContentError → Option (ℕ × Text))
    (success : ℕ) (documented : List ℕ)
    → is_in success documented ≡ true
    → ((x : ContentError)
        → may x ≡ true
        → is_in (global_exception_handler (refusal x (clauses x))).0 documented ≡ true)
    → (r : Result ContentError A × W) → Raises may r
    → is_in (status_of success (catching clauses r).0) documented ≡ true
documents may clauses success documented there h (ok a, w) k = there
documents may clauses success documented there h (err x, w) k = h x k

owner_clauses_lem :
    (documented : List ℕ)
    → is_in 403 documented ≡ true
    → is_in 404 documented ≡ true
    → (x : ContentError) → of_owner x ≡ true
    → is_in (global_exception_handler (refusal x (owner_clauses x))).0 documented ≡ true
unfolding global_exception_handler
owner_clauses_lem documented a b x h = ground arith

creation_clauses_lem :
    (x : ContentError)
    → of_creation x ≡ true
    → is_in (global_exception_handler (refusal x (create_clauses x))).0 create_responses ≡ true
unfolding global_exception_handler
creation_clauses_lem x h = ground arith

publish_clauses_lem :
    (x : ContentError)
    → of_publish x ≡ true
    → is_in (global_exception_handler (refusal x (publish_clauses x))).0 publish_responses ≡ true
unfolding global_exception_handler
publish_clauses_lem x h = ground arith

edit_clauses_lem :
    (x : ContentError)
    → of_edit x ≡ true
    → is_in (global_exception_handler (refusal x (edit_clauses x))).0 (409 ∷ 500 ∷ edit_responses)
      ≡ true
unfolding global_exception_handler
edit_clauses_lem x h = ground arith

module _ (e : Env) (w : World e) (current_user id : ℕ) where
  get_badge_by_id-Raises : Raises of_owner (get_badge_by_id e current_user id w)
  unfolding get_badge_by_id
  get_badge_by_id-Raises = ground arith

  publish_badge-Raises : Raises of_publish (publish_badge e current_user id w)
  unfolding publish_badge get_badge_by_id commit_unique
  publish_badge-Raises = ground arith

  unpublish_badge-Raises : Raises of_owner (unpublish_badge e current_user id w)
  unfolding unpublish_badge
  unpublish_badge-Raises = ground arith

  -- The original, if it is there, has a title that still fits its column with ` (Copy)`.
  duplicate_badge-Raises :
      ((b : Badge)
        → e.badges.first (kept id) w.db.badges ≡ some b
        → ltb 255 (length b.title + 7) ≡ false)
      → Raises of_owner (duplicate_badge e current_user id w)
  unfolding duplicate_badge get_badge_by_id increment_template_badge_count
  duplicate_badge-Raises short = elim (Option-cases (e.badges.first (kept id) w.db.badges)) [
    | inl gone ↦ ground (arith, gone)
    | inr (b, found) ↦
        let fits : ltb 255 (length (b.title ++ codes " (Copy)")) ≡ false =
          rw (length-append b.title (codes " (Copy)")) (short b found) in
        ground (arith, found, fits)
  ]

  delete_badge-Raises : Raises of_owner (delete_badge e current_user id w)
  unfolding delete_badge get_badge_by_id try_delete
  delete_badge-Raises = ground arith

  create_badge-Raises : Raises of_creation (create_badge e current_user id w)
  unfolding create_badge increment_template_badge_count
  create_badge-Raises = ground arith

  edit_badge-Raises :
      (u : FieldUpdates) (tags : Option (List Text)) (update_tags : Bool)
      → Raises of_edit (edit_badge e current_user id u tags update_tags w)
  unfolding edit_badge get_badge_by_id check_access
  edit_badge-Raises u tags update_tags = ground arith

  get_single_badge-Documented :
      ((b : Badge) → e.badges.first (kept id) w.db.badges ≡ some b → is_object b.canvas_data ≡ true)
      → Documented 200 owner_responses (get_single_badge e current_user id w).0
  unfolding get_single_badge get_badge_by_id global_exception_handler
  get_single_badge-Documented whole = elim (Option-cases (e.badges.first (kept id) w.db.badges)) [
    | inl gone ↦ ground (arith, gone)
    | inr (b, found) ↦ ground (arith, found, whole b found)
  ]

  update_badge-Documented :
      (u : FieldUpdates) (tags : Option (List Text)) (update_tags : Bool)
      → Documented 200
          (409 ∷ 500 ∷ edit_responses)
          (update_badge e current_user id u tags update_tags w).0
  unfolding update_badge global_exception_handler
  update_badge-Documented u tags update_tags =
      shown (edit_badge e current_user id u tags update_tags w)
        (edit_badge-Raises u tags update_tags)
    where
      shown :
          (r : Result ContentError Badge × World e)
          → Raises of_edit r
          → Documented 200
              (409 ∷ 500 ∷ edit_responses)
              (((λ (v : World e). catching edit_clauses r) >>= detail e) w).0
      shown (ok b, v) h = ground arith
      shown (err x, v) h = edit_clauses_lem x h

  -- If the badge, where there is a kept one, has an object as its canvas and a title of at most 248
  -- characters, the endpoints that create, read, publish, unpublish, duplicate and delete a badge
  -- answer with a status that they document; the edit endpoint does so too, or answers 409 or 500.
  pub statuses-Documented :
      (u : FieldUpdates) (tags : Option (List Text)) (update_tags : Bool)
      → ((b : Badge)
          → e.badges.first (kept id) w.db.badges ≡ some b
          → (is_object b.canvas_data ≡ true) × (length b.title ≤ 248))
      → Documented 201 create_responses (create_instance e current_user id w).0
        × Documented 200 owner_responses (get_single_badge e current_user id w).0
        × Documented 200 publish_responses (publish e current_user id w).0
        × Documented 200 owner_responses (unpublish e current_user id w).0
        × Documented 201 duplicate_responses (duplicate e current_user id w).0
        × Documented 204 remove_responses (remove_badge e current_user id w).0
        × Documented 200
            (409 ∷ 500 ∷ edit_responses)
            (update_badge e current_user id u tags update_tags w).0
  unfolding create_instance publish unpublish duplicate remove_badge
  statuses-Documented u tags update_tags sound = (
    documents of_creation create_clauses 201 create_responses refl creation_clauses_lem _
        create_badge-Raises,
    get_single_badge-Documented (λ b found. (sound b found).0),
    documents of_publish publish_clauses 200 publish_responses refl publish_clauses_lem _
        publish_badge-Raises,
    documents of_owner owner_clauses 200 owner_responses refl
        (owner_clauses_lem owner_responses refl refl) _ unpublish_badge-Raises,
    documents of_owner owner_clauses 201 duplicate_responses refl
        (owner_clauses_lem duplicate_responses refl refl) _
        (duplicate_badge-Raises (λ b found. ground (arith, (sound b found).1))),
    documents of_owner owner_clauses 204 remove_responses refl
        (owner_clauses_lem remove_responses refl refl) _ delete_badge-Raises,
    update_badge-Documented u tags update_tags,
  )
