-- ===== src/Examples/Endpoints.antt =====
-- Requests about the draft and the public badge.
use social_badge_api.Common.{
  ℕ, zero, suc, ◌≤◌, ◌≡◌, refl, Option, none, some, [], Text, arith, length, codes, ◌∷◌, true, Bool,
  not, ◌&&◌, text_eq, countb,
}
use social_badge_api.Common.Exec.{ok, err}
use social_badge_api.Common.Order.{IsOrdered}
use social_badge_api.Content.State.{Badge}
use social_badge_api.Badge.Listing.{kept_of}
use social_badge_api.Router.Badges.{
  create_instance, get_single_badge, publish, unpublish, duplicate, remove_badge, update_badge,
  is_object, get_participant_page,
}
use social_badge_api.Content.Samples.{env, start, shown, template}
use social_badge_api.Badge.Edit.{FieldUpdates}
use social_badge_api.Router.Badges.Status.{
  statuses-Documented, create_responses, owner_responses, publish_responses, duplicate_responses,
  remove_responses, edit_responses, Documented,
}
use social_badge_api.Router.Badges.Access.{participant_page_opens, is_ok, opens}
use social_badge_api.Common.Groups.{is_row, once, sizes}
use social_badge_api.Badge.Analytics.{
  get_badge_analytics_lem, most_first, uses, Answers, get_badge_analytics,
}
use social_badge_api.Admin.{made_from_template, not_found, delete_template, get_template}
use social_badge_api.Admin.Templates.{delete_template-get_template}

-- A number as so many ones, and back.
abbrev ones : ℕ → Text
ones zero = []
ones (suc n) = b'1' ∷ ones n

abbrev int : Text → Option ℕ
int t = some (length t)

abbrev no_updates : FieldUpdates
no_updates = record {
  title = none;
  canvas_data = none;
  default_caption = none;
  destination_link = none;
  thumbnail_url = none;
  access_type = none;
  access_code = none;
}

statuses-Documented_example :
    Documented 201 create_responses (create_instance env 1 1005 start).0
    × Documented 200 owner_responses (get_single_badge env 1 1005 start).0
    × Documented 200 publish_responses (publish env 1 1005 start).0
    × Documented 200 owner_responses (unpublish env 1 1005 start).0
    × Documented 201 duplicate_responses (duplicate env 1 1005 start).0
    × Documented 204 remove_responses (remove_badge env 1 1005 start).0
    × Documented 200
        (409 ∷ 500 ∷ edit_responses)
        (update_badge env 1 1005 no_updates none true start).0
statuses-Documented_example =
    statuses-Documented env start 1 1005 no_updates none true
      (λ b found. (ground (arith, found), ground (arith, found)))

participant_page_opens_example :
    let (result, w') = get_participant_page env (λ t. t) (codes "party") none start in
    (is_ok result ≡ opens (λ t. t) shown none && is_object shown.canvas_data) × (w' ≡ start)
unfolding text_eq
participant_page_opens_example =
    participant_page_opens env start (λ t. t) (codes "party") none shown refl

get_badge_analytics_lem_example :
    let rows = env.badges.rows start.db.badges in
    Answers env (get_badge_analytics env 1 start) start (λ a.
      (a.total ≡ countb (kept_of 1) rows)
      × (a.active ≡ countb (λ b. kept_of 1 b && b.is_published) rows)
      × (a.active ≤ a.total)
      × (sizes a.template_usage ≡ a.total)
      × IsOrdered most_first a.template_usage
      × ((t n : ℕ)
          → countb (is_row t n) a.template_usage
            ≡ once n (countb (λ b. kept_of 1 b && uses t b) rows)))
get_badge_analytics_lem_example = get_badge_analytics_lem env 1 start

delete_template-get_template_example :
    let (result, left) = delete_template env 3 start in
    (result ≡ ok tt)
    × ((get_template env 3 left).0 ≡ err (not_found env))
    × (countb (made_from_template 3) (env.badges.rows left.db.badges) ≡ 0)
    × ((q : Badge → Bool)
        → countb q (env.badges.rows left.db.badges)
          ≡ countb (λ b. not (made_from_template 3 b) && q b) (env.badges.rows start.db.badges))
    × (left.durable ≡ left.db)
delete_template-get_template_example = delete_template-get_template env start 3 template refl
