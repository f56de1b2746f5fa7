-- ===== src/Validation/Targets.antt =====
-- Which alert targets `check_target_matches_channel` accepts.
use monitoring_service.Prelude.{
  ℕ, ◌≡◌, ◌≢◌, ◌↔◌, ◌++◌, inl, inr, refl, sym, ap, ◌∙◌, true, false, [], ◌∷◌, arith, ==_refl,
  Bool-cases,
}
use monitoring_service.Prelude.Text.{Text}
use monitoring_service.Prelude.Text.Str.{any_space, strip, strip-no_space, partition, contains}
use monitoring_service.Model.{AlertChannel, email, webhook}
use monitoring_service.Validation.{Network, valid, check_email, check_target_matches_channel}
use monitoring_service.Validation.Accepted.{
  validate_check_url_iff, validate_check_url_again, is_empty-false,
}

-- The text splits at its first separator, or holds none.
partition-found :
    (sep : ℕ) (s : Text)
    → contains sep s ≡ true
    → (s ≡ (partition sep s).0 ++ sep ∷ (partition sep s).1)
      × (contains sep (partition sep s).0 ≡ false)
unfolding partition
partition-found sep [] h = cc
partition-found sep (c ∷ s) h = ground (arith, partition-found sep s)

partition-absent : (sep : ℕ) (s : Text) → contains sep s ≡ false → (partition sep s).1 ≡ []
unfolding partition
partition-absent sep [] h = refl
partition-absent sep (c ∷ s) h = ground (arith, partition-absent sep s)

partition-append :
    (sep : ℕ) (before after : Text)
    → contains sep before ≡ false
    → partition sep (before ++ sep ∷ after) ≡ (before, after)
unfolding partition
partition-append sep [] after h = rw ==_refl
partition-append sep (c ∷ before) after h = ground (arith, partition-append sep before after)

-- Something before the first @, and something with a dot after it, with no white space.
pub record IsEmail (target : Text) : Type 0 where
  pub local : Text
  pub domain : Text
  pub splits : target ≡ local ++ b'@' ∷ domain
  pub first_at : contains b'@' local ≡ false
  pub addressed : local ≢ []
  pub dotted : contains b'.' domain ≡ true
  pub no_space : any_space target ≡ false

check_email_sound :
    (target result : Text) → check_email target ≡ valid result → (result ≡ target) × IsEmail target
unfolding check_email
check_email_sound target result h =
    let dotted : contains b'.' (partition b'@' target).1 ≡ true = ground arith in
    let found : contains b'@' target ≡ true = elim (Bool-cases (contains b'@' target)) [
      | inl e ↦ e
      | inr none_there ↦ cc (rw (partition-absent b'@' target none_there) at dotted)
    ] in
    let (splits, first_at) = partition-found b'@' target found in
    (
      ground arith,
      record {
        local = (partition b'@' target).0;
        domain = (partition b'@' target).1;
        splits = splits;
        first_at = first_at;
        addressed = (is_empty-false (partition b'@' target).0).0 (ground arith);
        dotted = dotted;
        no_space = ground arith;
      },
    )

check_email_complete : (target : Text) → IsEmail target → check_email target ≡ valid target
unfolding check_email
check_email_complete target e =
    let p : partition b'@' target ≡ (e.local, e.domain) =
      ap (partition b'@') e.splits ∙ partition-append b'@' e.local e.domain e.first_at in
    ground (arith, p, (is_empty-false e.local).1 e.addressed, e.dotted, e.no_space)

module _ (network : Network) where
  -- An email target is accepted exactly if, without the white space around it, it has something
  -- before its first @, a dot somewhere after it, and no white space; what is stored is that text.
  pub check_email_target_iff :
      (target result : Text)
      → (check_target_matches_channel network email target ≡ valid result)
        ↔ ((result ≡ strip target) × IsEmail result)
  unfolding check_target_matches_channel
  check_email_target_iff target result = (
    λ h. let (same, e) = check_email_sound (strip target) result h in (same, rw same e),
    λ (same, e). rw (← same) (check_email_complete result e),
  )

  webhook_again :
      (target result : Text)
      → check_target_matches_channel network webhook target ≡ valid result
      → check_target_matches_channel network webhook result ≡ valid result
  unfolding check_target_matches_channel
  webhook_again target result h =
      let (_, f) = (validate_check_url_iff network (strip target) result).0 h in
      rw (strip-no_space result f.no_space)
        (validate_check_url_again network (strip target) result h)

  -- A stored target passes the check again, which the response model makes when it is shown.
  pub check_target_again :
      (channel : AlertChannel) (target result : Text)
      → check_target_matches_channel network channel target ≡ valid result
      → check_target_matches_channel network channel result ≡ valid result
  check_target_again email target result h =
      let (same, e) = (check_email_target_iff target result).0 h in
      (check_email_target_iff result result).1 (sym (strip-no_space result e.no_space), e)
  check_target_again webhook target result h = webhook_again target result h
