-- ===== src/Contact.antt =====
-- app/services/contact.py and `contact_us` of app/routers/v1/contact.py.
use social_badge_api.Common.{
  ℕ, zero, suc, ◌+◌, ◌<◌, ◌≡◌, refl, inl, inr, Bool, true, ◌&&◌, ◌||◌, Option, none, some, List, [],
  ◌∷◌, ◌++◌, Text, codes, length, get_or, leb, All, All-of_count, Bool-cases, if◌then◌else◌, arith,
}
use social_badge_api.Common.Exec.{Exec, Result, ok, err, pure, raise, ◌>>=◌, ◌>>◌}
use social_badge_api.Content.Slug.{get_or-All}

-- app/schemas/contact.py
pub data ContactTopic : Type 0 where
  general partnership bug_report feedback billing other : ContactTopic

pub record ContactRequest : Type 0 where
  pub first_name : Text
  pub last_name : Option Text
  pub email : Text
  pub subject : ContactTopic
  pub message : Text

-- _TOPIC_LABELS
abbrev pub topic_label : ContactTopic → Text
topic_label general = codes "General Question"
topic_label partnership = codes "Partnership Idea"
topic_label bug_report = codes "Bug Report"
topic_label feedback = codes "Feedback"
topic_label billing = codes "Billing"
topic_label other = codes "Other"

abbrev pub reference_alphabet : Text
reference_alphabet = codes "ABCDEFGHIJKLMNOPQRSTUVWXYZ0123456789"

-- What app/services/email.py sends: the notification with its reference, sender, subject and message,
-- and the confirmation with its address and reference.
pub data ContactMail : Type 0 where
  contact_notification : Text → Text → Text → Text → ContactMail
  contact_confirmation : Text → Text → ContactMail

-- `smtp` says whether a message is accepted; `year` and `decimal` are of the clock and `str`.
pub record ContactEnv : Type 0 where
  pub randbelow : ℕ → ℕ → ℕ
  pub smtp : List ContactMail → ContactMail → Bool
  pub year : ℕ
  pub decimal : ℕ → Text

-- The draws made so far, and what was handed to the mail server, the newest first.
pub record ContactWorld : Type 0 where
  pub draws : ℕ
  pub outbox : List ContactMail

pub data ContactError : Type 0 where
  email_delivery : ContactError

abbrev pub Contact : Type 0 → Type 0
Contact A = Exec ContactError ContactWorld A

module _ (e : ContactEnv) where
  unfoldable pub reference_suffix : ℕ → ℕ → Text
  reference_suffix d zero = []
  reference_suffix d (suc n) =
      get_or reference_alphabet (e.randbelow d (length reference_alphabet)) 0
      ∷ reference_suffix (suc d) n

  unfoldable pub generate_reference_id : Contact Text
  generate_reference_id w = (
    ok (codes "CONTACT-" ++ (e.decimal e.year ++ b'-' ∷ reference_suffix w.draws 6)),
    record w { draws = w.draws + 6 },
  )

  abbrev pub send : ContactMail → Contact Bool
  send m w = (ok (e.smtp w.outbox m), record w { outbox = m ∷ w.outbox })

  abbrev pub send_contact_notification : Text → ContactRequest → Contact (Unit {0})
  send_contact_notification reference_id p = do
    accepted ← send (contact_notification reference_id p.email (topic_label p.subject) p.message)
    if accepted then pure tt else raise email_delivery

  -- What it raises is logged and dropped.
  abbrev pub send_contact_confirmation : Text → Text → Contact (Unit {0})
  send_contact_confirmation to_email reference_id = do
    accepted ← send (contact_confirmation to_email reference_id)
    pure tt

  unfoldable pub submit_contact_form : ContactRequest → Contact Text
  unfolding generate_reference_id
  submit_contact_form payload = do
    reference_id ← generate_reference_id
    send_contact_notification reference_id payload
    send_contact_confirmation payload.email reference_id
    pure reference_id

  -- The status, and the reference of a message that was sent.
  abbrev pub contact_response : Result ContactError Text → ℕ × Option Text
  contact_response (ok reference_id) = (201, some reference_id)
  contact_response (err email_delivery) = (502, none)

  unfoldable pub contact_us : ContactRequest → ContactWorld → (ℕ × Option Text) × ContactWorld
  contact_us payload w =
      let (result, w') = submit_contact_form payload w in (contact_response result, w')

  -- The answer is the reference exactly if the notification is accepted; then a confirmation follows it, whatever becomes of that.
  pub contact_us_lem :
      (payload : ContactRequest) (w : ContactWorld)
      → let reference_id =
          codes "CONTACT-" ++ (e.decimal e.year ++ b'-' ∷ reference_suffix w.draws 6) in
        let note =
          contact_notification reference_id payload.email
            (topic_label payload.subject)
            payload.message in
        let (response, w') = contact_us payload w in
        (response ≡ (if e.smtp w.outbox note then (201, some reference_id) else (502, none)))
        × (w'.outbox ≡ (
            if e.smtp w.outbox note
            then contact_confirmation payload.email reference_id ∷ note ∷ w.outbox
            else note ∷ w.outbox))
  unfolding contact_us submit_contact_form generate_reference_id
  contact_us_lem payload w =
      let reference_id =
        codes "CONTACT-" ++ (e.decimal e.year ++ b'-' ∷ reference_suffix w.draws 6) in
      let note =
        contact_notification reference_id payload.email (topic_label payload.subject)
          payload.message in
      elim (Bool-cases (e.smtp w.outbox note)) [
        | inl sent ↦ (ground (arith, sent), ground (arith, sent))
        | inr lost ↦ (ground (arith, lost), ground (arith, lost))
      ]

abbrev pub is_reference : ℕ → Bool
is_reference c = (leb b'A' c && leb c b'Z') || (leb b'0' c && leb c b'9')

-- If each random index is below its bound, the suffix has the length asked for and only capitals and digits.
pub suffix_wellformed :
    (e : ContactEnv) (d n : ℕ)
    → ((k m : ℕ) → 0 < m → e.randbelow k m < m)
    → (length (reference_suffix e d n) ≡ n)
      × All (λ c. is_reference c ≡ true) (reference_suffix e d n)
unfolding reference_suffix
suffix_wellformed e d zero below = (refl, tt)
suffix_wellformed e d (suc n) below =
    let (len, good) = suffix_wellformed e (suc d) n below in
    (
      omega (arith, len),
      (
        get_or-All (λ c. is_reference c ≡ true) reference_alphabet (e.randbelow d 36) 0
            (All-of_count is_reference reference_alphabet refl) (below d 36 (omega arith)),
        good,
      ),
    )
