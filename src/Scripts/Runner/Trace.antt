-- ===== src/Scripts/Runner/Trace.antt =====
-- How a trace of agent/internal/scripts/runner.go is read: what it has of one kind, and what it holds.
use everwas.Base.{
  ℕ, zero, suc, ◌≡◌, refl, ap, sym, ◌∙◌, Option, none, some, List, [], ◌∷◌, ◌++◌, map, append_assoc,
  append-nil, arith, inl, inr, Option-cases,
}
use everwas.Base.Text.{Text}
use everwas.Scripts.Chunk.{Chunk}
use everwas.Scripts.Job.{Result}
use everwas.Scripts.Runner.{
  Effect, outputs, publishes, kill_times, progress, audits, stages, opens_pipes, registers, kills,
  starts, unregisters, releases_guard, closes_pipes, removes_stage,
}

-- What the effects have of one kind, in order.
abbrev pub gather : {B : Type 0} → (Effect → List B) → List Effect → List B
gather f [] = []
gather f (e ∷ es) = f e ++ gather f es

abbrev pub result_in : Effect → List (Text × Result)
result_in (publishes id r) = (id, r) ∷ []
result_in (progress pct phase n) = []
result_in (outputs c) = []
result_in (audits job r) = []
result_in stages = []
result_in opens_pipes = []
result_in registers = []
result_in kills = []
result_in (starts args env) = []
result_in unregisters = []
result_in releases_guard = []
result_in closes_pipes = []
result_in removes_stage = []

abbrev pub chunk_in : Effect → List Chunk
chunk_in (outputs c) = c ∷ []
chunk_in (publishes id r) = []
chunk_in (progress pct phase n) = []
chunk_in (audits job r) = []
chunk_in stages = []
chunk_in opens_pipes = []
chunk_in registers = []
chunk_in kills = []
chunk_in (starts args env) = []
chunk_in unregisters = []
chunk_in releases_guard = []
chunk_in closes_pipes = []
chunk_in removes_stage = []

pub gather-append :
    {B : Type 0}
    → (f : Effect → List B) (es fs : List Effect) → gather f (es ++ fs) ≡ gather f es ++ gather f fs
gather-append f [] fs = refl
gather-append f (e ∷ es) fs =
    ap (λ t. f e ++ t) (gather-append f es fs)
    ∙ sym (append_assoc (f e) (gather f es) (gather f fs))

pub result_in-outputs : (cs : List Chunk) → gather result_in (map outputs cs) ≡ []
result_in-outputs [] = refl
result_in-outputs (c ∷ cs) = result_in-outputs cs

pub chunk_in-outputs : (cs : List Chunk) → gather chunk_in (map outputs cs) ≡ cs
chunk_in-outputs [] = refl
chunk_in-outputs (c ∷ cs) = ap (λ t. c ∷ t) (chunk_in-outputs cs)

pub gather-kills :
    {B : Type 0} → (f : Effect → List B) (n : ℕ) → f kills ≡ [] → gather f (kill_times n) ≡ []
gather-kills f zero h = refl
gather-kills f (suc n) h = rw h (gather-kills f n h)

-- What a run holds, innermost first: the staged script, the pipes, the process group and the entry by which
-- `Cancel` finds the job.
pub data Resource : Type 0 where
  staged_script pipes process entry : Resource

-- The stack after an effect; `none` where a resource is given up that is not on top, or a job is killed
-- that is not registered.
abbrev pub holds : Effect → List Resource → Option (List Resource)
holds stages held = some (staged_script ∷ held)
holds opens_pipes held = some (pipes ∷ held)
holds (starts args env) held = some (process ∷ held)
holds registers held = some (entry ∷ held)
holds kills (entry ∷ held) = some (entry ∷ held)
holds kills held = none
holds unregisters (entry ∷ held) = some held
holds unregisters held = none
holds releases_guard (process ∷ held) = some held
holds releases_guard held = none
holds closes_pipes (pipes ∷ held) = some held
holds closes_pipes held = none
holds removes_stage (staged_script ∷ held) = some held
holds removes_stage held = none
holds (progress pct phase n) held = some held
holds (outputs c) held = some held
holds (publishes id r) held = some held
holds (audits job r) held = some held

unfoldable pub unwind : List Effect → List Resource → Option (List Resource)
unwind [] held = some held
unwind (e ∷ es) held = elim (holds e held) [ none ↦ none | some held' ↦ unwind es held' ]

pub unwind-outputs :
    (cs : List Chunk) (es : List Effect) (held : List Resource)
    → unwind (map outputs cs ++ es) held ≡ unwind es held
unfolding unwind
unwind-outputs [] es held = refl
unwind-outputs (c ∷ cs) es held = unwind-outputs cs es held

pub unwind-kills :
    (n : ℕ) (es : List Effect) (held : List Resource)
    → unwind (kill_times n ++ es) (entry ∷ held) ≡ unwind es (entry ∷ held)
unfolding unwind
unwind-kills zero es held = refl
unwind-kills (suc n) es held = unwind-kills n es held

-- The effects of a run around its output, and none of them is an output or a result.
pub gather-around :
    {B : Type 0}
    → (f : Effect → List B) (before after : List Effect) (cs : List Chunk) → gather f before ≡ []
    → gather f after ≡ []
    → gather f (before ++ (map outputs cs ++ after)) ≡ gather f (map outputs cs)
gather-around f before after cs b a =
    gather-append f before (map outputs cs ++ after)
    ∙ ap (λ t. t ++ gather f (map outputs cs ++ after)) b
    ∙ gather-append f (map outputs cs) after
    ∙ ap (λ t. gather f (map outputs cs) ++ t) a
    ∙ append-nil (gather f (map outputs cs))

pub unwind-append :
    (es fs : List Effect) (held after : List Resource)
    → unwind es held ≡ some after
    → unwind (es ++ fs) held ≡ unwind fs after
unfolding unwind
unwind-append [] fs held after h = ground (arith, h)
unwind-append (e ∷ es) fs held after h = elim (Option-cases (holds e held)) [
  | inl q ↦ let h' : none ≡ some after = rw (unwind, q) at h in absurd (ground (arith, h'))
  | inr (held', q) ↦
      let h' : unwind es held' ≡ some after = rw (unwind, q) at h in
      rw (unwind, q) (unwind-append es fs held' after h')
]
