-- ===== src/Signer/Attest/Parts.antt =====
-- pkg/signer/attest/attest.go: the statement that AttestOci signs, and what it
-- uploads to the log.
use argo_supply_chain_securi.Prelude.{
  ℕ, String, ◌≡◌, ◌⊎◌, refl, arith, ap, true, false, Option, none, some, inl, inr, List, [], ◌∷◌,
  ◌++◌, Bool-cases,
}
use argo_supply_chain_securi.Prelude.Text.{has_prefix}
use argo_supply_chain_securi.Go.{ok}
use argo_supply_chain_securi.Go.Binds.{bind-ok, wrap-value, from_result-ok, pair-ok}
use argo_supply_chain_securi.Config.{Config}
use argo_supply_chain_securi.Oci.{Reference}
use argo_supply_chain_securi.Signer.Library.{SignerVerifier, Cosign, LogEntry}
use argo_supply_chain_securi.Signer.Keys.{KeyOpts}
use argo_supply_chain_securi.Signer.Attest.{upload_to_tlog, statement, index_info, log_entry}

module _ {W K : Type 0} (c : Cosign W K) where
  -- The payload that is signed: the predicate itself where its type begins with slsa, and the
  -- in-toto statement that cosign makes of it elsewhere.
  abbrev pub IsStatementOf : Reference → String → String → String → String → Type 0
  IsStatementOf ref digest payload_type predicate payload =
      ((has_prefix payload_type "slsa" ≡ true) × (payload ≡ predicate))
      ⊎ ((has_prefix payload_type "slsa" ≡ false)
          × (sh : String) × (c.generate_statement (record {
            predicate = predicate;
            predicate_type = payload_type;
            digest = c.hash_hex digest;
            repo = c.repository ref;
          })
              ≡ inr sh)
          × (c.marshal_statement sh ≡ inr payload))

  -- The envelope was uploaded to the log, which gave it an index, or transparency is off.
  abbrev pub IsLogged :
      Config K
      → KeyOpts
      → SignerVerifier c.Key
      → String
      → List String
      → Option c.Bundle × List String
      → Type 0
  IsLogged cfg ko sv signed_payload info logged =
      ((cfg.transparency ≡ true)
        × (before : W) × (entry : LogEntry c.Bundle) × ((upload_to_tlog c sv ko.rekor_url
              signed_payload before).0
            ≡ ok entry)
        × (index : ℕ) × (entry.log_index ≡ some index)
        × (logged ≡ (
          some entry.bundle,
          info
              ++ "tlog uploaded to"
                ∷ ko.rekor_url
                ∷ "tlog entry created with index"
                ∷ c.format_index index
                ∷ [],
        )))
      ⊎ ((cfg.transparency ≡ false) × (logged ≡ (none, info)))

  pub statement-IsStatementOf :
      (ref : Reference) (digest payload_type predicate : String) (w : W) {payload : String}
      → (statement c ref digest payload_type predicate w).0 ≡ ok payload
      → IsStatementOf ref digest payload_type predicate payload
  unfolding statement
  statement-IsStatementOf ref digest payload_type predicate w h =
      elim (Bool-cases (has_prefix payload_type "slsa")) [
        | inl slsa ↦ inl (slsa, ground arith)
        | inr other ↦
            let (sh, made, k) = bind-ok _ _ w (pair-ok _ (rw other at h)) in
            inr (
              other,
              sh,
              from_result-ok _ _ (wrap-value _ _ w made),
              from_result-ok _ _ (wrap-value _ _ _ (ap (λ r. r.0) k)),
            )
      ]

  index_info-ok :
      (url : String) (i : Option ℕ) (info : List String) (w : W) {info' : List String}
      → (index_info c url i info w).0 ≡ ok info'
      → (index : ℕ) × (i ≡ some index)
        × (info'
            ≡ info
              ++ "tlog uploaded to"
                ∷ url
                ∷ "tlog entry created with index"
                ∷ c.format_index index
                ∷ [])
  unfolding index_info
  index_info-ok url none info w h = cc
  index_info-ok url (some i) info w h = (i, refl, ground arith)

  pub log_entry-IsLogged :
      (cfg : Config K) (ko : KeyOpts) (sv : SignerVerifier c.Key) (signed_payload : String)
      (info : List String) (w : W) {logged : Option c.Bundle × List String}
      → (log_entry c cfg ko sv signed_payload info w).0 ≡ ok logged
      → IsLogged cfg ko sv signed_payload info logged
  unfolding log_entry
  log_entry-IsLogged cfg ko sv signed_payload info w h = elim (Bool-cases cfg.transparency) [
    | inl on ↦
        let (entry, uploaded, k) = bind-ok _ _ w (pair-ok _ (rw on at h)) in
        let (info', told, k') = bind-ok _ _ _ k in
        let (index, indexed, e) = index_info-ok ko.rekor_url entry.log_index info _ told in
        inl (on, w, entry, uploaded, index, indexed, cc (ap (λ r. r.0) k', e))
    | inr off ↦ inr (off, ground arith)
  ]
