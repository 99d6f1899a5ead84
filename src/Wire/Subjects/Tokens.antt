-- ===== src/Wire/Subjects/Tokens.antt =====
-- What the ids of agent/internal/wire/identifier.go do inside the subjects of subjects.go.
use everwas.Base.{
  ℕ, ◌≡◌, refl, ap, ◌∙◌, Bool, true, false, ◌&&◌, ◌||◌, List, [], ◌∷◌, ◌++◌, leb, ◌==◌, arith,
  contains,
}
use everwas.Base.Text.{Text, split, codes}
use everwas.Wire.Identifier.Grammar.{IsDotted}
use everwas.Wire.Subjects.{
  heartbeat, telemetry, inventory, job_progress, job_output, job_result, events, shell_out,
  shell_ctl, jobs_queue, cmd, cmd_wildcard, shell_in, shell_resize, inbox_prefix,
}

abbrev is_token_char : ℕ → Bool
is_token_char c =
    leb b'a' c && leb c b'z'
    || (leb b'A' c && leb c b'Z' || (leb b'0' c && leb c b'9' || (c == b'_' || c == b'-')))

abbrev is_word : Text → Bool
is_word [] = true
is_word (c ∷ s) = is_token_char c && is_word s

abbrev pub AllDotted : List Text → Type 0
AllDotted [] = Unit {0}
AllDotted (s ∷ ss) = IsDotted s × AllDotted ss

-- Every subject that the agent publishes on or listens to for one agent id and one name, and its inbox;
-- `cmd_wildcard` is the one subject that is meant to hold a wildcard.
abbrev pub subjects : Text → Text → List Text
subjects agent name =
    heartbeat agent
    ∷ telemetry agent
    ∷ inventory agent name
    ∷ job_progress agent name
    ∷ job_output agent name
    ∷ job_result agent name
    ∷ events agent
    ∷ shell_out agent name
    ∷ shell_ctl agent name
    ∷ jobs_queue agent
    ∷ cmd agent name
    ∷ shell_in agent name
    ∷ shell_resize agent name
    ∷ inbox_prefix agent
    ∷ []

split_id :
    (sep : ℕ) (a t : Text) → contains sep a ≡ false → split sep (a ++ sep ∷ t) ≡ a ∷ split sep t
unfolding split contains
split_id sep [] t h = ground arith
split_id sep (c ∷ a) t h = ground (arith, split_id sep a t)

split_last : (sep : ℕ) (a : Text) → contains sep a ≡ false → split sep a ≡ a ∷ []
unfolding split contains
split_last sep [] h = refl
split_last sep (c ∷ a) h = ground (arith, split_last sep a)

split_three :
    (v a l : Text)
    → contains b'.' v ≡ false
    → contains b'.' a ≡ false
    → contains b'.' l ≡ false
    → split b'.' (v ++ b'.' ∷ (a ++ b'.' ∷ l)) ≡ v ∷ a ∷ l ∷ []
split_three v a l hv ha hl =
    split_id b'.' v (a ++ b'.' ∷ l) hv
    ∙ ap (λ t. v ∷ t) (split_id b'.' a l ha ∙ ap (λ t. a ∷ t) (split_last b'.' l hl))

split_five :
    (v a w n l : Text)
    → contains b'.' v ≡ false
    → contains b'.' a ≡ false
    → contains b'.' w ≡ false
    → contains b'.' n ≡ false
    → contains b'.' l ≡ false
    → split b'.' (v ++ b'.' ∷ (a ++ b'.' ∷ (w ++ b'.' ∷ (n ++ b'.' ∷ l)))) ≡ v ∷ a ∷ w ∷ n ∷ l ∷ []
split_five v a w n l hv ha hw hn hl =
    split_id b'.' v (a ++ b'.' ∷ (w ++ b'.' ∷ (n ++ b'.' ∷ l))) hv
    ∙ ap (λ t. v ∷ t)
        (split_id b'.' a (w ++ b'.' ∷ (n ++ b'.' ∷ l)) ha
          ∙ ap (λ t. a ∷ t) (split_three w n l hw hn hl))

-- Where the two ids hold no dot, the tokens of a subject are the fixed words and the ids themselves, so
-- that a subject tells its agent, its job or session and its kind apart.
pub subject_tokens :
    (agent name : Text)
    → contains b'.' agent ≡ false
    → contains b'.' name ≡ false
    → (split b'.' (job_result agent name)
        ≡ codes "agents" ∷ agent ∷ codes "jobs" ∷ name ∷ codes "result" ∷ [])
      × (split b'.' (job_output agent name)
          ≡ codes "agents" ∷ agent ∷ codes "jobs" ∷ name ∷ codes "output" ∷ [])
      × (split b'.' (shell_in agent name)
          ≡ codes "agents" ∷ agent ∷ codes "shell" ∷ name ∷ codes "in" ∷ [])
      × (split b'.' (cmd agent name) ≡ codes "cmd" ∷ agent ∷ name ∷ [])
      × (split b'.' (cmd_wildcard agent) ≡ codes "cmd" ∷ agent ∷ codes ">" ∷ [])
      × (split b'.' (jobs_queue agent) ≡ codes "jobs" ∷ agent ∷ [])
unfolding job_result job_output shell_in cmd cmd_wildcard jobs_queue contains
subject_tokens agent name a n = (
  split_five (codes "agents") agent (codes "jobs") name (codes "result") refl a refl n refl,
  split_five (codes "agents") agent (codes "jobs") name (codes "output") refl a refl n refl,
  split_five (codes "agents") agent (codes "shell") name (codes "in") refl a refl n refl,
  split_three (codes "cmd") agent name refl a n,
  split_three (codes "cmd") agent (codes ">") refl a refl,
  split_id b'.' (codes "jobs") agent refl ∙ ap (λ t. codes "jobs" ∷ t) (split_last b'.' agent a),
)
