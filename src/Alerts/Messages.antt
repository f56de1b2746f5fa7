-- ===== src/Alerts/Messages.antt =====
-- app/alerts.py, `send_email_alert`: the subject of the mail, and what subject and body say together.
use mathlib.Core.List.{append_cancel_left, append_cancel_right}
use monitoring_service.Prelude.{ℕ, ◌≡◌, refl, sym, ap, ◌∙◌, Bool, true, false, [], ◌∷◌, ◌++◌, arith}
use monitoring_service.Prelude.Text.{Text, text}
use monitoring_service.Prelude.Text.Str.{contains, join}
use monitoring_service.Prelude.Text.Decimal.{str, str_injective}
use monitoring_service.Alerts.Body.{
  mail_body, written_lines, mail_body-lines, mail_body-written, written_lines_injective,
}

unfoldable pub subject : Bool → ℕ → Text
subject true endpoint_id =
    text "RECOVERED: endpoint " ++ (str endpoint_id ++ text " is back online")
subject false endpoint_id = text "ALERT: endpoint " ++ (str endpoint_id ++ text " is down")

first_code : Text → ℕ
first_code [] = 0
first_code (c ∷ s) = c

first_codes_apart : ◌≡◌ {A = ℕ} b'R' b'A' → ⊥
first_codes_apart e = omega (arith, e)

subject_injective : (r s : Bool) (m n : ℕ) → subject r m ≡ subject s n → (r ≡ s) × (m ≡ n)
unfolding subject first_code
subject_injective true true m n e = (
  refl,
  str_injective m n
      (append_cancel_right _ _ _ (append_cancel_left (text "RECOVERED: endpoint ") _ _ e)),
)
subject_injective false false m n e = (
  refl,
  str_injective m n
      (append_cancel_right _ _ _ (append_cancel_left (text "ALERT: endpoint ") _ _ e)),
)
subject_injective true false m n e = elim (first_codes_apart (ap first_code e)) [ ]
subject_injective false true m n e = elim (first_codes_apart (sym (ap first_code e))) [ ]

-- The lines of one kind of mail, and of one endpoint, are those of one URL and one time.
same_alert :
    (r s : Bool) (i j : ℕ) (url url' ts ts' : Text)
    → r ≡ s
    → i ≡ j
    → written_lines s j url' ts' ≡ written_lines r i url ts
    → (url' ≡ url) × (ts' ≡ ts)
same_alert r s i j url url' ts ts' kind endpoint e =
    written_lines_injective r j i url' url ts' ts (sym endpoint)
      (ap (λ (x : Bool). written_lines x j url' ts') kind ∙ e)

-- For a URL and a time of one line, the body of an alert's mail is its lines without the margin that
-- the source has, and only this alert has this mail: a mail with the same subject and the same body
-- is of the same kind, endpoint, URL and time.
pub mail_body_lem :
    (r : Bool) (endpoint_id : ℕ) (url timestamp : Text)
    → contains 10 url ≡ false
    → contains 10 timestamp ≡ false
    → (mail_body r endpoint_id url timestamp ≡ join 10 (written_lines r endpoint_id url timestamp))
      × ((s : Bool) (n : ℕ) (url' timestamp' : Text)
          → contains 10 url' ≡ false
          → contains 10 timestamp' ≡ false
          → subject s n ≡ subject r endpoint_id
          → mail_body s n url' timestamp' ≡ mail_body r endpoint_id url timestamp
          → (s ≡ r) × (n ≡ endpoint_id) × (url' ≡ url) × (timestamp' ≡ timestamp))
mail_body_lem r endpoint_id url timestamp u t = (
  mail_body-lines r endpoint_id url timestamp u t,
  λ s n url' timestamp' u' t' same_subject same_body.
      let (kind, endpoint) = subject_injective s r n endpoint_id same_subject in
      let lines =
        mail_body-written s r n endpoint_id url' url timestamp' timestamp u' t' u t same_body in
      let (same_url, same_time) =
        same_alert r s endpoint_id n url url' timestamp timestamp' (sym kind) (sym endpoint)
          lines in
      (kind, endpoint, same_url, same_time),
)
