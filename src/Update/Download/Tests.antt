-- ===== src/Update/Download/Tests.antt =====
-- Downloads of agent/internal/update/download.go at concrete inputs.
use everwas.Base.{append-nil}
use everwas.Base.{sym}
use everwas.Base.{◌≡◌, refl, true, false, none, [], ◌∷◌, drop, inl, inr}
use everwas.Base.Text.{Text, codes}
use everwas.Update.Download.{Staging, replied, sanitize_version, keep_codes}
use everwas.Update.Download.Retry.{Attempt, Arrives, download_all, download_resumes}

abbrev url : Text
url = codes "https://x/a"

abbrev artifact : Text
artifact = codes "abcdef"

abbrev empty : Staging
empty = record { part = none; dest = none }

-- The first transfer breaks after three bytes.
abbrev broken : Attempt
broken = record { faults = λ op. false; server = λ n. replied 200 (codes "abc") true }

abbrev whole : Attempt
whole = record { faults = λ op. false; server = λ n. replied 206 (drop n artifact) false }

download_resumes_example :
    Arrives 99 url artifact empty (download_all 99 url (broken ∷ whole ∷ []) empty)
download_resumes_example =
    download_resumes 99 url artifact (broken ∷ whole ∷ []) empty (artifact, refl)
      (
        λ n. ((codes "def", refl), inl refl),
        (λ n. (([], sym (append-nil (drop n artifact))), inr refl), tt),
      )

odd_version : sanitize_version (codes "1.0/../x") ≡ codes "1.0_.._x"
unfolding sanitize_version keep_codes
odd_version = refl
