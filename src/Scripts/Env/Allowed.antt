-- ===== src/Scripts/Env/Allowed.antt =====
-- What reaches a job's environment, agent/internal/scripts/env.go.
use everwas.Base.{
  ◌≡◌, ◌≢◌, refl, true, false, not, ◌||◌, List, [], ◌∷◌, ◌++◌, map, contains, Each, Any, arith, ◌⊎◌,
  inl, inr, Bool-cases, Option-cases,
}
use everwas.Base.Text.{
  sort_texts, insert_sorted, text_lt, Text, text_eq, text_eq_refl, member, cut, cut-some, to_lower,
}
use everwas.Scripts.Env.{
  Env, env_allow_set, set_key, keep_host, add_extra, forges, kept_env, scrub_env, assignment,
}

-- A variable that the host has and the allowlist names, or one that the server sent and that forges nothing.
abbrev pub IsHost : List Text → Text × Text → Type 0
IsHost host e =
    (member (assignment e) host ≡ true)
    × (member (to_lower e.0) env_allow_set ≡ true)
    × (contains b'=' e.0 ≡ false)

abbrev pub IsExtra : Env → Text × Text → Type 0
IsExtra extra e = Any (λ x. x ≡ e) extra × (forges e.0 ≡ false)

abbrev pub IsAllowed : List Text → Env → Text × Text → Type 0
IsAllowed host extra e = (e.0 ≢ []) × (IsHost host e ⊎ IsExtra extra e)

not_empty : (k : Text) → text_eq k [] ≡ false → k ≢ []
not_empty k h z = let h' : text_eq [] [] ≡ false = rw z at h in ground (arith, h', text_eq_refl [])

module _ (P : Text × Text → Type 0) where
  Each-set_key : (k v : Text) (es : Env) → P (k, v) → Each P es → Each P (set_key k v es)
  unfolding set_key
  Each-set_key k v [] p h = (p, tt)
  Each-set_key k v (e ∷ es) p h = elim (Bool-cases (text_eq e.0 k)) [
    | inl q ↦ rw q (p, h.1)
    | inr q ↦ rw q (h.0, Each-set_key k v es p h.1)
  ]

  Each-keep_host :
      (host : List Text) (kept : Env)
      → ((e : Text × Text) → e.0 ≢ [] → IsHost host e → P e)
      → Each P kept
      → Each P (keep_host host kept)
  unfolding keep_host
  Each-keep_host [] kept p h = h
  Each-keep_host (kv ∷ host) kept p h = elim (Option-cases (cut b'=' kv)) [
    | inl q ↦ rw (keep_host, q) (Each-keep_host host kept later h)
    | inr ((k, v), q) ↦
        let (halves, plain) = cut-some b'=' kv k v q in
        elim (Bool-cases (text_eq k [] || not (member (to_lower k) env_allow_set))) [
          | inl skip ↦ rw (keep_host, q, skip) (Each-keep_host host kept later h)
          | inr take ↦
              let allowed : member (to_lower k) env_allow_set ≡ true = ground (arith, take) in
              let here : member (assignment (k, v)) (kv ∷ host) ≡ true =
                unfold member in rw (halves, text_eq_refl (k ++ b'=' ∷ v)) refl in
              rw (keep_host, q, take)
                (Each-keep_host host (set_key k v kept) later (
                  Each-set_key k v kept
                    (p (k, v) (not_empty k (ground (arith, take))) (here, allowed, plain)) h))
        ]
  ]
    where
      later : (e : Text × Text) → e.0 ≢ [] → IsHost host e → P e
      later e n i = p e n (unfold member in ground (arith, i.0), i.1, i.2)

  Each-add_extra :
      (extra kept : Env)
      → ((e : Text × Text) → e.0 ≢ [] → IsExtra extra e → P e)
      → Each P kept
      → Each P (add_extra extra kept)
  unfolding add_extra
  Each-add_extra [] kept p h = h
  Each-add_extra (e ∷ extra) kept p h = elim (Bool-cases (text_eq e.0 [] || forges e.0)) [
    | inl q ↦ rw q (Each-add_extra extra kept later h)
    | inr q ↦
        let here = p e (not_empty e.0 (ground (arith, q))) (inl refl, ground (arith, q)) in
        rw q (Each-add_extra extra (set_key e.0 e.1 kept) later (Each-set_key e.0 e.1 kept here h))
  ]
    where
      later : (x : Text × Text) → x.0 ≢ [] → IsExtra extra x → P x
      later x n i = p x n (inr i.0, i.1)

module _ (P : Text → Type 0) where
  Each-insert_sorted : (s : Text) (ts : List Text) → P s → Each P ts → Each P (insert_sorted s ts)
  unfolding insert_sorted
  Each-insert_sorted s [] p h = (p, tt)
  Each-insert_sorted s (t ∷ ts) p h = elim (Bool-cases (text_lt t s)) [
    | inl q ↦ rw q (h.0, Each-insert_sorted s ts p h.1)
    | inr q ↦ rw q (p, (h.0, h.1))
  ]

  Each-sort_texts : (ts : List Text) → Each P ts → Each P (sort_texts ts)
  unfolding sort_texts
  Each-sort_texts [] h = tt
  Each-sort_texts (t ∷ ts) h = Each-insert_sorted t (sort_texts ts) h.0 (Each-sort_texts ts h.1)

abbrev pub IsLine : List Text → Env → Text → Type 0
IsLine host extra line = (e : Text × Text) × (line ≡ assignment e) × IsAllowed host extra e

Each-assignment :
    (host : List Text) (extra es : Env)
    → Each (IsAllowed host extra) es
    → Each (IsLine host extra) (map assignment es)
Each-assignment host extra [] h = tt
Each-assignment host extra (e ∷ es) h = ((e, refl, h.0), Each-assignment host extra es h.1)

-- Every line of a job's environment assigns a name that is not empty and has no `=`: a variable of the host
-- whose lower-case name is in the allowlist, or one that the server sent.
pub scrub_env-IsLine :
    (host : List Text) (extra : Env) → Each (IsLine host extra) (scrub_env host extra)
unfolding scrub_env kept_env
scrub_env-IsLine host extra =
    let inherited = Each-keep_host (IsAllowed host extra) host [] (λ e n i. (n, inl i)) tt in
    let all =
      Each-add_extra (IsAllowed host extra) extra (keep_host host []) (λ e n i. (n, inr i))
        inherited in
    Each-sort_texts (IsLine host extra) (map assignment (kept_env host extra))
      (Each-assignment host extra (kept_env host extra) all)
