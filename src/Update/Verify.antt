-- ===== src/Update/Verify.antt =====
-- agent/internal/update/verify.go: minisign keys and signatures. The base64 decoder (`none` where it
-- refuses), ed25519 and SHA-256 are parameters; an array of the source is a list of bytes.
pub mod Trust
use everwas.Base.{
  ℕ, suc, ◌+◌, ◌-◌, Bool, true, false, not, ◌&&◌, ◌||◌, Option, none, some, List, [], ◌∷◌, ◌++◌,
  ltb, ◌==◌, if◌then◌else◌, length, take, drop,
}
use everwas.Base.Text.{Text, codes, text_eq, member, trim_space, split, has_prefix, to_lower}
use everwas.Update.State.{is_empty}

abbrev pub alg_len : ℕ
alg_len = 2

abbrev pub key_id_len : ℕ
key_id_len = 8

abbrev pub pub_key_body_len : ℕ
pub_key_body_len = alg_len + key_id_len + 32

abbrev pub sig_body_len : ℕ
sig_body_len = alg_len + key_id_len + 64

abbrev pub alg_ed_dsa : Text
alg_ed_dsa = codes "Ed"

abbrev pub alg_hashed_ed_dsa : Text
alg_hashed_ed_dsa = codes "ED"

pub data VerifyError : Type 0 where
  malformed_key malformed_signature unsupported_alg prehashed_signature key_id_mismatch :
      VerifyError
  bad_signature checksum_mismatch no_public_key no_trust_anchor : VerifyError

pub data Answer (A : Type 0) : Type 0 where
  good : A → Answer A
  bad : VerifyError → Answer A

pub record PublicKey : Type 0 where
  pub algorithm : Text
  pub key_id : Text
  pub key : Text

-- A nil GlobalSig is `none`.
pub record Signature : Type 0 where
  pub algorithm : Text
  pub key_id : Text
  pub sig : Text
  pub trusted_comment : Text
  pub global_sig : Option Text

-- The trimmed lines that are not empty. `TrimRight(_, "\r")` finds nothing after TrimSpace.
unfoldable pub non_empty_lines_of : List Text → List Text
non_empty_lines_of [] = []
non_empty_lines_of (l ∷ ls) =
    let rest = non_empty_lines_of ls in
    if is_empty (trim_space l) then rest else trim_space l ∷ rest

abbrev pub non_empty_lines : Text → List Text
non_empty_lines s = non_empty_lines_of (split 10 s)

abbrev pub last : List Text → Option Text
last [] = none
last (l ∷ []) = some l
last (l ∷ m ∷ ls) = last (m ∷ ls)

unfoldable pub last_non_empty_line : Text → Option Text
unfolding non_empty_lines_of
last_non_empty_line s = last (non_empty_lines s)

module _ (decode : Text → Option Text) (ed25519_verify : Text → Text → Text → Bool)
    (sha256_hex : Text → Text) where
  public_key_of : Text → Answer PublicKey
  public_key_of raw =
      if not (length raw == pub_key_body_len)
      then bad malformed_key
      else if text_eq (take alg_len raw) alg_ed_dsa || text_eq (take alg_len raw) alg_hashed_ed_dsa
      then good (record {
        algorithm = take alg_len raw;
        key_id = take key_id_len (drop alg_len raw);
        key = drop (alg_len + key_id_len) raw;
      })
      else bad unsupported_alg

  unfoldable pub parse_public_key : Text → Answer PublicKey
  unfolding last_non_empty_line public_key_of
  parse_public_key s = elim (last_non_empty_line s) [
    | none ↦ bad malformed_key
    | some body ↦ elim (decode body) [ none ↦ bad malformed_key | some raw ↦ public_key_of raw ]
  ]

  -- The loop over the lines after the second.
  unfoldable pub read_trailer : List Text → Signature → Answer Signature
  read_trailer [] sig = good sig
  read_trailer (l ∷ ls) sig =
      let commented = read_trailer ls (record sig { trusted_comment = trim_space (drop 16 l) }) in
      let skipped = read_trailer ls sig in
      if has_prefix l (codes "trusted comment:")
      then commented
      else if not (is_empty sig.trusted_comment)
          && (elim sig.global_sig [ none ↦ true | some g ↦ false ])
      then elim (decode l) [
        | none ↦ bad malformed_signature
        | some g ↦
            if length g == 64
            then read_trailer ls (record sig { global_sig = some g })
            else bad malformed_signature
      ]
      else skipped

  signature_of : Text → Signature
  signature_of raw = record {
    algorithm = take alg_len raw;
    key_id = take key_id_len (drop alg_len raw);
    sig = drop (alg_len + key_id_len) raw;
    trusted_comment = [];
    global_sig = none;
  }

  unfoldable pub parse_lines : List Text → Answer Signature
  unfolding read_trailer signature_of
  parse_lines [] = bad malformed_signature
  parse_lines (first ∷ []) = bad malformed_signature
  parse_lines (first ∷ body ∷ trailer) = elim (decode body) [
    | none ↦ bad malformed_signature
    | some raw ↦
        if length raw == sig_body_len
        then read_trailer trailer (signature_of raw)
        else bad malformed_signature
  ]

  unfoldable pub parse_signature : Text → Answer Signature
  unfolding parse_lines non_empty_lines_of
  parse_signature b = parse_lines (non_empty_lines b)

  -- A nil error is `none`.
  unfoldable pub verify_parsed : PublicKey → Text → Signature → Option VerifyError
  verify_parsed p message s =
      if text_eq s.algorithm alg_hashed_ed_dsa
      then some prehashed_signature
      else if not (text_eq s.algorithm alg_ed_dsa)
      then some unsupported_alg
      else if not (text_eq s.key_id p.key_id)
      then some key_id_mismatch
      else if not (length p.key == 32)
      then some malformed_key
      else if not (ed25519_verify p.key message s.sig)
      then some bad_signature
      else elim s.global_sig [
        | none ↦ none
        | some g ↦
            if ed25519_verify p.key (s.sig ++ s.trusted_comment) g then none else some bad_signature
      ]

  unfoldable pub verify : PublicKey → Text → Text → Option VerifyError
  unfolding parse_signature verify_parsed
  verify p message signature = elim (parse_signature signature) [
    | bad e ↦ some e
    | good s ↦ verify_parsed p message s
  ]

  abbrev pub is_mismatch : VerifyError → Bool
  is_mismatch key_id_mismatch = true
  is_mismatch e = false

  -- The error kept from the keys so far, and that of the key at hand.
  unfoldable pub kept_error : Option VerifyError → VerifyError → VerifyError
  kept_error none e = e
  kept_error (some l) e = if is_mismatch l then e else l

  unfoldable pub verify_each :
      Option VerifyError → List PublicKey → Text → Text → Option VerifyError
  unfolding verify kept_error
  verify_each last_error [] message signature = last_error
  verify_each last_error (p ∷ ps) message signature = elim (verify p message signature) [
    | none ↦ none
    | some e ↦ verify_each (some (kept_error last_error e)) ps message signature
  ]

  unfoldable pub verify_any : List PublicKey → Text → Text → Option VerifyError
  unfolding verify_each
  verify_any [] message signature = some no_public_key
  verify_any (p ∷ ps) message signature = verify_each none (p ∷ ps) message signature

  -- The loop; `seen` holds the key ids.
  unfoldable pub collect_keys : List Text → List Text → Answer (List PublicKey)
  unfolding parse_public_key
  collect_keys seen [] = good []
  collect_keys seen (s ∷ ss) =
      let skipped = collect_keys seen ss in
      if is_empty (trim_space s) then skipped else elim (parse_public_key s) [
        | bad e ↦ bad e
        | good p ↦
            if member p.key_id seen then skipped else elim (collect_keys (p.key_id ∷ seen) ss) [
              | bad e ↦ bad e
              | good ps ↦ good (p ∷ ps)
            ]
      ]

  unfoldable pub trusted_keys : Text → Text → List Text → Answer (List PublicKey)
  unfolding collect_keys
  trusted_keys embedded dev_build extra =
      if is_empty (trim_space embedded) && not (text_eq (trim_space dev_build) (codes "true"))
      then bad no_trust_anchor
      else elim (collect_keys [] (embedded ∷ extra)) [
        | bad e ↦ bad e
        | good [] ↦ bad no_public_key
        | good (p ∷ ps) ↦ good (p ∷ ps)
      ]

  unfoldable pub verify_sha256 : Text → Text → Option VerifyError
  verify_sha256 body want =
      let w = to_lower (trim_space want) in
      if is_empty w
      then some checksum_mismatch
      else if text_eq (sha256_hex body) w
      then none
      else some checksum_mismatch
