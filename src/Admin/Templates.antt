-- ===== src/Admin/Templates.antt =====
-- app/routers/v1/admin.py: what an endpoint of a template leaves for the next.
use social_badge_api.Common.{
  ℕ, ◌≤◌, ◌≡◌, ◌∙◌, sym, refl, Bool, not, ◌&&◌, some, countb, countb-filterb, countb_never, arith,
}
use mathlib.Core.Path.{subst}
use social_badge_api.Common.Exec.{ok, err}
use social_badge_api.Platform.Table.{first-update, first_none_of}
use social_badge_api.Content.State.{Env, World, PlatformTemplate, Badge}
use social_badge_api.Admin.{
  TemplateUpdates, by_template, made_from_template, with_updates, not_found,
  update_platform_template, delete_platform_template, get_platform_template, update_template,
  delete_template, get_template,
}

module _ (e : Env) (w : World e) (template_id : ℕ) (t : PlatformTemplate)
    (found : e.templates.first (by_template template_id) w.db.templates ≡ some t) where
  same_id : t.id ≡ template_id
  same_id =
      ground (arith, (e.templates.first-some (by_template template_id) w.db.templates t found).0)

  -- An update of a template that is there succeeds and commits; reading it back gives the updated fields, and no badge changes.
  pub update_template-get_template :
      (payload : TemplateUpdates)
      → countb (by_template template_id) (e.templates.rows w.db.templates) ≤ 1
      → let (result, w') = update_template e template_id payload w in
        (result ≡ ok (with_updates payload t))
        × ((get_template e template_id w').0 ≡ ok (with_updates payload t))
        × (w'.durable ≡ w'.db)
        × (w'.db.badges ≡ w.db.badges)
  unfolding update_template get_template update_platform_template get_platform_template
  update_template-get_template payload one =
      let back =
        first-update e.templates (by_template template_id) (with_updates payload) w.db.templates t
          one found (e.templates.first-some (by_template template_id) w.db.templates t found).0 in
      let read =
        subst
          (λ i.
            e.templates.first (by_template template_id)
              (e.templates.update (by_template i) (with_updates payload) w.db.templates)
            ≡ some (with_updates payload t))
          (sym same_id) back in
      rw found (refl, rw read refl, refl, refl)

  -- Deleting a template that is there succeeds and commits; then the template is not found, no
  -- badge made from it is left, and every other badge is.
  pub delete_template-get_template :
      let (result, w') = delete_template e template_id w in
      (result ≡ ok tt)
      × ((get_template e template_id w').0 ≡ err (not_found e))
      × (countb (made_from_template template_id) (e.badges.rows w'.db.badges) ≡ 0)
      × ((q : Badge → Bool)
          → countb q (e.badges.rows w'.db.badges)
            ≡ countb
                (λ b. not (made_from_template template_id b) && q b)
                (e.badges.rows w.db.badges))
      × (w'.durable ≡ w'.db)
  unfolding delete_template get_template delete_platform_template get_platform_template
  delete_template-get_template =
      let none_left : countb (by_template template_id)
            (e.templates.rows (e.templates.delete (by_template template_id) w.db.templates))
          ≡ 0 =
        rw e.templates.rows-delete (
          countb-filterb _ (by_template template_id) (e.templates.rows w.db.templates)
          ∙ countb_never (by_template template_id) (e.templates.rows w.db.templates)) in
      let gone =
        first_none_of e.templates (by_template template_id)
          (e.templates.delete (by_template template_id) w.db.templates) none_left in
      rw found (
        rw same_id (
          refl,
          rw gone refl,
          rw e.badges.rows-delete (
              countb-filterb _ (made_from_template template_id) (e.badges.rows w.db.badges)
              ∙ countb_never (made_from_template template_id) (e.badges.rows w.db.badges)),
          λ q. rw e.badges.rows-delete (countb-filterb _ q (e.badges.rows w.db.badges)),
          refl,
        ))
