-- ===== src/Update/Verify/Trust.antt =====
-- What agent/internal/update/verify.go accepts, and the keys that it trusts.
use everwas.Base.{
  Option-cases, Bool-cases, sym, Bool, true, false, ◌≡◌, refl, ◌⊎◌, Option, none, some, List, [],
  ◌∷◌, ◌++◌, arith, length, Any, inl, inr,
}
use everwas.Base.Text.{Text, codes, text_eq, text_eq_iff, member, trim_space}
use everwas.Update.State.{is_empty}
use everwas.Update.Verify.{
  bad, kept_error, good, PublicKey, Signature, Answer, VerifyError, alg_ed_dsa, parse_public_key,
  parse_signature, verify_parsed, verify, verify_each, verify_any, collect_keys, trusted_keys,
}

pub Answer-cases :
    {A : Type 0} → (a : Answer A) → ((x : A) × (a ≡ good x)) ⊎ ((e : VerifyError) × (a ≡ bad e))
Answer-cases (good x) = inl (x, refl)
Answer-cases (bad e) = inr (e, refl)

module _ (decode : Text → Option Text) (ed25519_verify : Text → Text → Text → Bool)
    (sha256_hex : Text → Text) where
  -- The file parses to a signature that the key made, directly over the message; a trusted comment that is
  -- signed is signed by that key too.
  pub record Signs (message signature : Text) (p : PublicKey) : Type 0 where
    pub parsed : Signature
    pub parses : parse_signature decode ed25519_verify sha256_hex signature ≡ Answer.good parsed
    pub unhashed : text_eq parsed.algorithm alg_ed_dsa ≡ true
    pub same_key : parsed.key_id ≡ p.key_id
    pub key_length : length p.key ≡ 32
    pub message_signed : ed25519_verify p.key message parsed.sig ≡ true
    pub comment_signed :
        (g : Text)
        → parsed.global_sig ≡ some g
        → ed25519_verify p.key (parsed.sig ++ parsed.trusted_comment) g ≡ true

  verify_parsed-none :
      (p : PublicKey) (message : Text) (s : Signature)
      → verify_parsed decode ed25519_verify sha256_hex p message s ≡ none
      → (text_eq s.algorithm alg_ed_dsa ≡ true)
        × (text_eq s.key_id p.key_id ≡ true)
        × (length p.key ≡ 32)
        × (ed25519_verify p.key message s.sig ≡ true)
        × ((g : Text)
            → s.global_sig ≡ some g
            → ed25519_verify p.key (s.sig ++ s.trusted_comment) g ≡ true)
  unfolding verify_parsed
  verify_parsed-none p message s h = ground arith

  verify-Signs :
      (p : PublicKey) (message signature : Text) (s : Signature)
      → parse_signature decode ed25519_verify sha256_hex signature ≡ Answer.good s
      → verify_parsed decode ed25519_verify sha256_hex p message s ≡ none
      → Signs message signature p
  verify-Signs p message signature s e h =
      let (a, k, l, m, g) = verify_parsed-none p message s h in
      record {
        parsed = s;
        parses = e;
        unhashed = a;
        same_key = (text_eq_iff s.key_id p.key_id).0 k;
        key_length = l;
        message_signed = m;
        comment_signed = g;
      }

  verify-none :
      (p : PublicKey) (message signature : Text)
      → verify decode ed25519_verify sha256_hex p message signature ≡ none
      → Signs message signature p
  unfolding verify
  verify-none p message signature h =
      elim (Answer-cases (parse_signature decode ed25519_verify sha256_hex signature)) [
        | inl (s, e) ↦ verify-Signs p message signature s e (ground (arith, e))
        | inr (x, e) ↦ absurd (ground (arith, e))
      ]

  verify_each-none :
      (last_error : Option VerifyError) (ps : List PublicKey) (message signature : Text)
      → (last_error ≡ none → ⊥)
      → verify_each decode ed25519_verify sha256_hex last_error ps message signature ≡ none
      → Any (Signs message signature) ps
  unfolding verify_each
  verify_each-none last_error [] message signature l h = l h
  verify_each-none last_error (p ∷ ps) message signature l h =
      elim (Option-cases (verify decode ed25519_verify sha256_hex p message signature)) [
        | inl e ↦ inl (verify-none p message signature e)
        | inr (x, e) ↦ inr (
            verify_each-none (some (kept_error decode ed25519_verify sha256_hex last_error x)) ps
              message signature (λ q. ground arith) (ground (arith, e)))
      ]

  -- VerifyAny accepts a file only if some key on the list made the signature in it, over that message and
  -- unhashed, under its own key id, and also signed the trusted comment where the file has a signature of
  -- it. With no keys it accepts nothing.
  pub verify_any-none :
      (ps : List PublicKey) (message signature : Text)
      → verify_any decode ed25519_verify sha256_hex ps message signature ≡ none
      → Any (Signs message signature) ps
  unfolding verify_any verify_each
  verify_any-none [] message signature h = ground arith
  verify_any-none (p ∷ ps) message signature h =
      elim (Option-cases (verify decode ed25519_verify sha256_hex p message signature)) [
        | inl e ↦ inl (verify-none p message signature e)
        | inr (x, e) ↦ inr (
            verify_each-none (some (kept_error decode ed25519_verify sha256_hex none x)) ps message
              signature (λ q. ground arith) (ground (arith, e)))
      ]

  -- The keys stand for keys of the list, under ids that are new.
  pub IsCollected : List Text → List Text → List PublicKey → Type 0
  IsCollected seen ss [] = Unit {0}
  IsCollected seen ss (p ∷ ps) =
      (member p.key_id seen ≡ false)
      × Any (λ s. parse_public_key decode ed25519_verify sha256_hex s ≡ good p) ss
      × IsCollected (p.key_id ∷ seen) ss ps

  IsCollected-more :
      (s : Text) (seen ss : List Text) (ps : List PublicKey)
      → IsCollected seen ss ps
      → IsCollected seen (s ∷ ss) ps
  unfolding IsCollected
  IsCollected-more s seen ss [] h = tt
  IsCollected-more s seen ss (p ∷ ps) (n, a, h) =
      (n, inr a, IsCollected-more s (p.key_id ∷ seen) ss ps h)

  collect_keys-IsCollected :
      (seen ss : List Text) (ps : List PublicKey)
      → collect_keys decode ed25519_verify sha256_hex seen ss ≡ good ps
      → IsCollected seen ss ps
  unfolding collect_keys IsCollected
  collect_keys-IsCollected seen [] ps h = let q : [] ≡ ps = ground arith in rw (sym q) tt
  collect_keys-IsCollected seen (s ∷ ss) ps h = elim (Bool-cases (is_empty (trim_space s))) [
    | inl e ↦
        IsCollected-more s seen ss ps (collect_keys-IsCollected seen ss ps (ground (arith, e)))
    | inr e ↦ elim (Answer-cases (parse_public_key decode ed25519_verify sha256_hex s)) [
      | inr (x, r) ↦ absurd (ground (arith, e, r))
      | inl (p, r) ↦ elim (Bool-cases (member p.key_id seen)) [
        | inl m ↦
            IsCollected-more s seen ss ps
              (collect_keys-IsCollected seen ss ps (ground (arith, e, r, m)))
        | inr m ↦
            elim (Answer-cases
              (collect_keys decode ed25519_verify sha256_hex (p.key_id ∷ seen) ss)) [
                | inr (x, c) ↦ absurd (ground (arith, e, r, m, c))
                | inl (qs, c) ↦
                    let q : p ∷ qs ≡ ps = ground (arith, e, r, m, c) in
                    rw (sym q) (
                      m,
                      inl r,
                      IsCollected-more s (p.key_id ∷ seen) ss qs
                          (collect_keys-IsCollected (p.key_id ∷ seen) ss qs c),
                    )
              ]
      ]
    ]
  ]

  collect_keys-anchor :
      (s : Text) (ss : List Text) (ps : List PublicKey)
      → is_empty (trim_space s) ≡ false
      → collect_keys decode ed25519_verify sha256_hex [] (s ∷ ss) ≡ good ps
      → (p : PublicKey) × (parse_public_key decode ed25519_verify sha256_hex s ≡ good p)
        × ((rest : List PublicKey) × (ps ≡ p ∷ rest))
  unfolding collect_keys member
  collect_keys-anchor s ss ps e h =
      elim (Answer-cases (parse_public_key decode ed25519_verify sha256_hex s)) [
        | inr (x, r) ↦ absurd (ground (arith, e, r))
        | inl (p, r) ↦
            elim (Answer-cases (collect_keys decode ed25519_verify sha256_hex (p.key_id ∷ []) ss)) [
              | inr (x, c) ↦ absurd (ground (arith, e, r, c))
              | inl (qs, c) ↦ (p, r, (qs, ground (arith, e, r, c)))
            ]
      ]

  -- The keys that TrustedKeys hands out: the embedded key first, unless the build has none, which only a
  -- development build may; every other one is a key of the server's list, so never trusted instead of it.
  -- The key ids are distinct, and there is at least one key.
  pub trusted_keys-good :
      (embedded dev_build : Text) (extra : List Text) (ps : List PublicKey)
      → trusted_keys decode ed25519_verify sha256_hex embedded dev_build extra ≡ good ps
      → ((ps ≡ []) → ⊥)
        × IsCollected [] (embedded ∷ extra) ps
        × ((is_empty (trim_space embedded) ≡ true)
            → text_eq (trim_space dev_build) (codes "true") ≡ true)
        × ((is_empty (trim_space embedded) ≡ false)
            → (p : PublicKey) × (parse_public_key decode ed25519_verify sha256_hex embedded
                ≡ good p)
              × ((rest : List PublicKey) × (ps ≡ p ∷ rest)))
  unfolding trusted_keys
  trusted_keys-good embedded dev_build extra ps h =
      elim (Answer-cases (collect_keys decode ed25519_verify sha256_hex [] (embedded ∷ extra))) [
        | inr (x, c) ↦ absurd (ground (arith, c))
        | inl ([], c) ↦ absurd (ground (arith, c))
        | inl (q ∷ qs, c) ↦
            let e : q ∷ qs ≡ ps = ground (arith, c) in
            let c' : collect_keys decode ed25519_verify sha256_hex [] (embedded ∷ extra) ≡ good ps =
              ground (arith, c, e) in
            (
              λ n. ground (arith, n, e),
              collect_keys-IsCollected [] (embedded ∷ extra) ps c',
              λ b. ground (arith, b, c),
              λ b. collect_keys-anchor embedded extra ps b c',
            )
      ]
