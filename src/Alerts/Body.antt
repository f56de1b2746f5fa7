-- ===== src/Alerts/Body.antt =====
-- app/alerts.py, `send_email_alert`: the body of the mail, with `textwrap.dedent`.
use mathlib.Core.List.{append_cancel_left, append_cancel_right}
use monitoring_service.Prelude.{
  ℕ, ◌≡◌, refl, ap, sym, ◌∙◌, Bool, true, false, ◌&&◌, ◌||◌, Option, none, some, List, [], ◌∷◌,
  ◌++◌, map, arith, ◌==◌, All, if◌then◌else◌,
}
use monitoring_service.Prelude.Text.{Text, text}
use monitoring_service.Prelude.Text.Str.{contains, contains-append, split, join, split-join}
use monitoring_service.Prelude.Text.Decimal.{str, IsDigit, str-IsDigit}

-- A space or a tab.
abbrev pub is_blank : ℕ → Bool
is_blank c = c == 32 || c == 9

abbrev pub all_blank : Text → Bool
all_blank [] = true
all_blank (c ∷ s) = is_blank c && all_blank s

-- A line of white space is normalized to an empty one.
abbrev pub unblank : Text → Text
unblank line = if all_blank line then [] else line

abbrev pub indent_of : Text → Text
indent_of [] = []
indent_of (c ∷ s) = let rest = indent_of s in if is_blank c then c ∷ rest else []

abbrev pub common_prefix : Text → Text → Text
common_prefix (a ∷ s) (b ∷ t) = let rest = common_prefix s t in if a == b then a ∷ rest else []
common_prefix _ _ = []

abbrev pub or_common : Text → Option Text → Text
or_common indent none = indent
or_common indent (some margin) = common_prefix indent margin

-- What all lines that are not empty start with.
abbrev pub margin_of : List Text → Option Text
margin_of [] = none
margin_of ([] ∷ lines) = margin_of lines
margin_of ((c ∷ s) ∷ lines) = some (or_common (indent_of (c ∷ s)) (margin_of lines))

-- The line without this start, where it has it.
abbrev pub without : Text → Text → Option Text
without [] line = some line
without (a ∷ margin) [] = none
without (a ∷ margin) (c ∷ line) = let rest = without margin line in if a == c then rest else none

abbrev pub or_line : Text → Option Text → Text
or_line line none = line
or_line line (some rest) = rest

abbrev pub remove_margin : Option Text → List Text → List Text
remove_margin none lines = lines
remove_margin (some margin) lines = map (λ (line : Text). or_line line (without margin line)) lines

abbrev pub dedent_lines : List Text → List Text
dedent_lines lines = remove_margin (margin_of (map unblank lines)) (map unblank lines)

unfoldable pub dedent : Text → Text
dedent s = join 10 (dedent_lines (split 10 s))

-- The lines of the two f-strings.
unfoldable pub recovery_lines : ℕ → Text → Text → List Text
recovery_lines endpoint_id url timestamp =
    []
    ∷ text "            Hello,"
    ∷ []
    ∷ (text "            Good news! The endpoint with ID "
        ++ (str endpoint_id ++ (text " has recovered at: " ++ (timestamp ++ text "."))))
    ∷ (text "            URL: " ++ url)
    ∷ []
    ∷ text "            Best regards,"
    ∷ text "            Monitoring System"
    ∷ text "        "
    ∷ []

unfoldable pub down_lines : ℕ → Text → Text → List Text
down_lines endpoint_id url timestamp =
    []
    ∷ text "            Warning,"
    ∷ []
    ∷ (text "            The endpoint with ID "
        ++ (str endpoint_id ++ (text " has failed a health check at: " ++ (timestamp ++ text "."))))
    ∷ (text "            URL: " ++ url)
    ∷ text "            "
    ∷ text "            Please investigate the issue immediately."
    ∷ []
    ∷ text "            Best regards,"
    ∷ text "            Monitoring System"
    ∷ text "        "
    ∷ []

unfoldable pub mail_body : Bool → ℕ → Text → Text → Text
mail_body true endpoint_id url timestamp =
    dedent (join 10 (recovery_lines endpoint_id url timestamp))
mail_body false endpoint_id url timestamp = dedent (join 10 (down_lines endpoint_id url timestamp))

-- What the mail is to say, a line each.
abbrev pub written_lines : Bool → ℕ → Text → Text → List Text
written_lines true endpoint_id url timestamp =
    []
    ∷ text "Hello,"
    ∷ []
    ∷ (text "Good news! The endpoint with ID "
        ++ (str endpoint_id ++ (text " has recovered at: " ++ (timestamp ++ text "."))))
    ∷ (text "URL: " ++ url)
    ∷ []
    ∷ text "Best regards,"
    ∷ text "Monitoring System"
    ∷ []
    ∷ []
written_lines false endpoint_id url timestamp =
    []
    ∷ text "Warning,"
    ∷ []
    ∷ (text "The endpoint with ID "
        ++ (str endpoint_id ++ (text " has failed a health check at: " ++ (timestamp ++ text "."))))
    ∷ (text "URL: " ++ url)
    ∷ []
    ∷ text "Please investigate the issue immediately."
    ∷ []
    ∷ text "Best regards,"
    ∷ text "Monitoring System"
    ∷ []
    ∷ []

digits-contain : (s : Text) → All IsDigit s → contains 10 s ≡ false
digits-contain [] h = refl
digits-contain (c ∷ s) h = ground (arith, digits-contain s h.1)

sentence-contains :
    (start middle timestamp : Text) (endpoint_id : ℕ)
    → contains 10 start ≡ false
    → contains 10 middle ≡ false
    → contains 10 timestamp ≡ false
    → contains 10 (start ++ (str endpoint_id ++ (middle ++ (timestamp ++ text ".")))) ≡ false
sentence-contains start middle timestamp i a b c = contains-append 10 start _ a (
    contains-append 10 (str i) _ (digits-contain (str i) (str-IsDigit i))
      (contains-append 10 middle _ b (contains-append 10 timestamp (text ".") c refl)))

-- A sentence tells its time, where its endpoint is known.
sentence-timestamp :
    (start middle t v : Text) (i j : ℕ)
    → i ≡ j
    → start ++ (str i ++ (middle ++ (t ++ text ".")))
      ≡ start ++ (str j ++ (middle ++ (v ++ text ".")))
    → t ≡ v
sentence-timestamp start middle t v i j same e =
    let numbered = append_cancel_left start _ _ e in
    let told = numbered ∙ ap (λ n. str n ++ (middle ++ (v ++ text "."))) (sym same) in
    append_cancel_right _ _ _ (append_cancel_left middle _ _ (append_cancel_left (str i) _ _ told))

abbrev rest_of : List Text → List Text
rest_of [] = []
rest_of (line ∷ lines) = lines

abbrev OneLine : Text → Type 0
OneLine line = contains 10 line ≡ false

recovery_lines-OneLine :
    (i : ℕ) (url ts : Text) → OneLine url → OneLine ts → All OneLine (recovery_lines i url ts)
unfolding recovery_lines
recovery_lines-OneLine i url ts u t = (
  refl,
  (
    refl,
    (
      refl,
      (
        sentence-contains (text "            Good news! The endpoint with ID ")
            (text " has recovered at: ") ts i refl refl t,
        (
          contains-append 10 (text "            URL: ") url refl u,
          (refl, (refl, (refl, (refl, tt)))),
        ),
      ),
    ),
  ),
)

down_lines-OneLine :
    (i : ℕ) (url ts : Text) → OneLine url → OneLine ts → All OneLine (down_lines i url ts)
unfolding down_lines
down_lines-OneLine i url ts u t = (
  refl,
  (
    refl,
    (
      refl,
      (
        sentence-contains (text "            The endpoint with ID ")
            (text " has failed a health check at: ") ts i refl refl t,
        (
          contains-append 10 (text "            URL: ") url refl u,
          (refl, (refl, (refl, (refl, (refl, (refl, tt)))))),
        ),
      ),
    ),
  ),
)

-- For a URL and a time of one line, the body of the mail is its lines without their margin.
pub mail_body-lines :
    (is_recovery : Bool) (endpoint_id : ℕ) (url timestamp : Text)
    → contains 10 url ≡ false
    → contains 10 timestamp ≡ false
    → mail_body is_recovery endpoint_id url timestamp
      ≡ join 10 (written_lines is_recovery endpoint_id url timestamp)
unfolding mail_body dedent recovery_lines down_lines
mail_body-lines true i url ts u t =
    ap (λ lines. join 10 (dedent_lines lines))
      (split-join 10 [] (rest_of (recovery_lines i url ts)) (recovery_lines-OneLine i url ts u t))
mail_body-lines false i url ts u t =
    ap (λ lines. join 10 (dedent_lines lines))
      (split-join 10 [] (rest_of (down_lines i url ts)) (down_lines-OneLine i url ts u t))

written_lines-OneLine :
    (r : Bool) (i : ℕ) (url ts : Text)
    → OneLine url
    → OneLine ts
    → All OneLine (rest_of (written_lines r i url ts))
written_lines-OneLine true i url ts u t = (
  refl,
  (
    refl,
    (
      sentence-contains (text "Good news! The endpoint with ID ") (text " has recovered at: ") ts i
          refl refl t,
      (contains-append 10 (text "URL: ") url refl u, (refl, (refl, (refl, (refl, tt))))),
    ),
  ),
)
written_lines-OneLine false i url ts u t = (
  refl,
  (
    refl,
    (
      sentence-contains (text "The endpoint with ID ") (text " has failed a health check at: ") ts i
          refl refl t,
      (
        contains-append 10 (text "URL: ") url refl u,
        (refl, (refl, (refl, (refl, (refl, (refl, tt)))))),
      ),
    ),
  ),
)

split_written :
    (r : Bool) (i : ℕ) (url ts : Text)
    → OneLine url
    → OneLine ts
    → split 10 (join 10 (written_lines r i url ts)) ≡ written_lines r i url ts
split_written true i url ts u t =
    split-join 10 [] (rest_of (written_lines true i url ts))
      (refl, written_lines-OneLine true i url ts u t)
split_written false i url ts u t =
    split-join 10 [] (rest_of (written_lines false i url ts))
      (refl, written_lines-OneLine false i url ts u t)

-- Two bodies are the same only if all their lines are.
pub mail_body-written :
    (r s : Bool) (i j : ℕ) (url url' ts ts' : Text)
    → contains 10 url ≡ false
    → contains 10 ts ≡ false
    → contains 10 url' ≡ false
    → contains 10 ts' ≡ false
    → mail_body r i url ts ≡ mail_body s j url' ts'
    → written_lines r i url ts ≡ written_lines s j url' ts'
mail_body-written r s i j url url' ts ts' u t u' t' e =
    sym (split_written r i url ts u t)
    ∙ ap (split 10) (sym (mail_body-lines r i url ts u t) ∙ e ∙ mail_body-lines s j url' ts' u' t')
    ∙ split_written s j url' ts' u' t'

abbrev sentence_of : List Text → Text
sentence_of (a ∷ b ∷ c ∷ sentence ∷ lines) = sentence
sentence_of _ = []

abbrev url_of : List Text → Text
url_of (a ∷ b ∷ c ∷ sentence ∷ url ∷ lines) = url
url_of _ = []

-- The lines of one kind tell the URL and the time.
pub written_lines_injective :
    (r : Bool) (i j : ℕ) (url url' ts ts' : Text)
    → i ≡ j
    → written_lines r i url ts ≡ written_lines r j url' ts'
    → (url ≡ url') × (ts ≡ ts')
written_lines_injective true i j url url' ts ts' same e = (
  append_cancel_left (text "URL: ") _ _ (ap url_of e),
  sentence-timestamp (text "Good news! The endpoint with ID ") (text " has recovered at: ") ts ts' i
      j same (ap sentence_of e),
)
written_lines_injective false i j url url' ts ts' same e = (
  append_cancel_left (text "URL: ") _ _ (ap url_of e),
  sentence-timestamp (text "The endpoint with ID ") (text " has failed a health check at: ") ts ts'
      i j same (ap sentence_of e),
)
