-- ===== src/Signer/Attest/Laws.antt =====
-- pkg/signer/attest/attest.go: what a success of AttestOci means.
use argo_supply_chain_securi.Prelude.{
  String, ◌≡◌, arith, ap, false, Option, none, some, inl, inr, List, [], ◌∷◌, Option-cases, subst,
  ◌∙◌,
}
use argo_supply_chain_securi.Go.{ok, err, plain}
use argo_supply_chain_securi.Go.Binds.{
  ok-injective, bind-ok, wrap-value, from_result-ok, pair-ok, deferred-ok,
}
use argo_supply_chain_securi.Config.{Config}
use argo_supply_chain_securi.Oci.{Reference}
use argo_supply_chain_securi.Signer.Library.{SignerVerifier, Cosign}
use argo_supply_chain_securi.Signer.Keys.{KeyOpts, key_opts, signer_from_key_opts}
use argo_supply_chain_securi.Signer.Attest.{
  cert_chain, publish, attest_with, attest_digest, attest_reference, attest_oci,
}
use argo_supply_chain_securi.Signer.Attest.Parts.{
  IsStatementOf, IsLogged, statement-IsStatementOf, log_entry-IsLogged,
}

module _ {W K : Type 0} (c : Cosign W K) where
  -- The signed statement was made an attestation of the digest's entity and written to its
  -- repository, with the signer's certificate, the type of the predicate and the log's bundle.
  pub record IsAttached (ref : Reference) (cfg : Config K) (ko : KeyOpts)
      (sv : SignerVerifier c.Key) (opts : c.RemoteOptions) (payload_type signed_payload : String)
      (info told : List String) (after : W) : Type 0 where
    pub predicate_type : String
    pub parsed_type : c.parse_predicate_type payload_type ≡ inr predicate_type
    pub bundle : Option c.Bundle
    pub logged : IsLogged c cfg ko sv signed_payload info (bundle, told)
    pub attestation : c.Signature
    pub made :
        c.new_attestation signed_payload (record {
          cert_chain = cert_chain c sv;
          predicate_type = predicate_type;
          bundle = bundle;
        })
        ≡ inr attestation
    pub new_entity : c.Entity
    pub attached :
        c.attach_attestation_to_entity (c.signed_unknown ref (some opts)) attestation sv
        ≡ inr new_entity
    pub at : W
    pub written : c.write_attestations (c.repository ref) new_entity opts at ≡ (ok tt, after)

  publish-IsAttached :
      (ref : Reference) (cfg : Config K) (ko : KeyOpts) (sv : SignerVerifier c.Key)
      (opts : c.RemoteOptions) (payload_type signed_payload : String) (info : List String) (w : W)
      {told : List String} {w' : W}
      → publish c ref cfg ko sv opts payload_type signed_payload info w ≡ (ok told, w')
      → IsAttached ref cfg ko sv opts payload_type signed_payload info told w'
  unfolding publish
  publish-IsAttached ref cfg ko sv opts payload_type signed_payload info w {told} {w'} h =
      let (predicate_type, h1, k1) = bind-ok _ _ w h in
      let (logged, h2, k2) = bind-ok _ _ _ k1 in
      let (sig, h3, k3) = bind-ok _ _ _ k2 in
      let (new_se, h4, k4) = bind-ok _ _ _ k3 in
      let (done, h5, k5) = bind-ok _ _ _ k4 in
      let same : logged.1 ≡ told = ok-injective (ap (λ r. r.0) k5) in
      record {
        predicate_type = predicate_type;
        parsed_type = from_result-ok _ w h1;
        bundle = logged.0;
        logged =
            subst (λ t. IsLogged c cfg ko sv signed_payload info (logged.0, t)) same
              (log_entry-IsLogged c cfg ko sv signed_payload info _ h2);
        attestation = sig;
        made = from_result-ok _ _ h3;
        new_entity = new_se;
        attached = from_result-ok _ _ h4;
        at = _;
        written = pair-ok _ h5 ∙ (λ i. (ok tt, (ap (λ r. r.1) k5) i));
      }

  -- How AttestOci has come to its result: the image parses to a reference with a digest, a signer
  -- was opened for the key, it has signed the statement, the attestation is attached, and the
  -- signer is closed at the end.
  pub record IsAttested (oci_image : String) (cfg : Config K) (ko : KeyOpts)
      (payload_type predicate : String) (told : List String) (after : W) : Type 0 where
    pub ref : Reference
    pub parsed : c.parse_reference oci_image ≡ inr ref
    pub digest : String
    pub with_digest : ref.digest ≡ some digest
    pub sv : SignerVerifier c.Key
    pub before : W
    pub opened : (signer_from_key_opts c ko false before).0 ≡ ok sv
    pub payload : String
    pub stated : IsStatementOf c ref digest payload_type predicate payload
    pub signed_payload : String
    pub signing : W
    pub signed : (c.sign_message sv payload signing).0 ≡ ok signed_payload
    pub opts : c.RemoteOptions
    pub last : W
    pub attached :
        IsAttached ref cfg ko sv opts payload_type signed_payload
          ("reference" ∷ oci_image ∷ "predicate type" ∷ payload_type ∷ [])
          told
          last
    pub closed : after ≡ c.close sv last

  attest_reference-bare :
      (ref : Reference) (cfg : Config K) (ko : KeyOpts) (payload_type predicate : String)
      (info : List String) (w : W)
      → ref.digest ≡ none
      → (attest_reference c ref cfg ko payload_type predicate info w).0
        ≡ err (plain "digest not awailable in oci ref")
  unfolding attest_reference
  attest_reference-bare ref cfg ko payload_type predicate info w bare = ground arith

  attest_reference-eq-attest_digest :
      (ref : Reference) (digest : String) (cfg : Config K) (ko : KeyOpts)
      (payload_type predicate : String) (info : List String) (w : W)
      → ref.digest ≡ some digest
      → attest_reference c ref cfg ko payload_type predicate info w
        ≡ attest_digest c ref digest cfg ko payload_type predicate info w
  unfolding attest_reference
  attest_reference-eq-attest_digest ref digest cfg ko payload_type predicate info w e = ground arith

  -- From a reference with a digest on.
  attest_digest-IsAttested :
      (oci_image : String) (ref : Reference) (digest : String) (cfg : Config K) (ko : KeyOpts)
      (payload_type predicate : String) (w : W) {told : List String} {w' : W}
      → c.parse_reference oci_image ≡ inr ref
      → ref.digest ≡ some digest
      → attest_digest c ref digest cfg ko payload_type predicate
          ("reference" ∷ oci_image ∷ "predicate type" ∷ payload_type ∷ [])
          w
        ≡ (ok told, w')
      → IsAttested oci_image cfg ko payload_type predicate told w'
  unfolding attest_digest attest_with
  attest_digest-IsAttested oci_image ref digest cfg ko payload_type predicate w parsed e h =
      let (opts, h1, k1) = bind-ok _ _ w h in
      let (sv, h2, k2) = bind-ok _ _ _ k1 in
      let (body, closed) = deferred-ok _ _ _ k2 in
      let (payload, h3, k3) = bind-ok _ _ _ body in
      let (signed_payload, h4, k4) = bind-ok _ _ _ k3 in
      record {
        ref = ref;
        parsed = parsed;
        digest = digest;
        with_digest = e;
        sv = sv;
        before = _;
        opened = wrap-value _ _ _ h2;
        payload = payload;
        stated = statement-IsStatementOf c ref digest payload_type predicate _ h3;
        signed_payload = signed_payload;
        signing = _;
        signed = wrap-value _ _ _ h4;
        opts = opts;
        last = _;
        attached =
            publish-IsAttached ref cfg ko sv opts payload_type signed_payload
              ("reference" ∷ oci_image ∷ "predicate type" ∷ payload_type ∷ []) _ k4;
        closed = closed;
      }

  -- AttestOci returns without an error only for an image that parses to a reference with a digest,
  -- after the signer that was opened for the key has signed the statement (the predicate itself
  -- for an slsa type) and the attestation was written to the digest's repository, its bundle in
  -- the transparency log where that is on; the signer is closed at the end.
  pub attest_oci-IsAttested :
      (cfg : Config K) (oci_image key_ref payload_type predicate : String) (w : W)
      {told : List String}
      → (attest_oci c cfg oci_image key_ref payload_type predicate w).0 ≡ ok told
      → IsAttested oci_image cfg
          (key_opts key_ref cfg)
          payload_type
          predicate
          told
          (attest_oci c cfg oci_image key_ref payload_type predicate w).1
  unfolding attest_oci
  attest_oci-IsAttested cfg oci_image key_ref payload_type predicate w h =
      let (ref, h1, k1) =
        bind-ok _ _ w (pair-ok (attest_oci c cfg oci_image key_ref payload_type predicate w) h) in
      let parsed = from_result-ok _ _ (wrap-value _ _ w h1) in
      elim (Option-cases ref.digest) [
        | inl bare ↦ cc (
          attest_reference-bare ref cfg (key_opts key_ref cfg) payload_type predicate _ _ bare,
          ap (λ r. r.0) k1,
        )
        | inr (digest, e) ↦
            attest_digest-IsAttested oci_image ref digest cfg (key_opts key_ref cfg) payload_type
              predicate _ parsed e
              (rw
                (attest_reference-eq-attest_digest ref digest cfg (key_opts key_ref cfg)
                  payload_type predicate
                  ("reference" ∷ oci_image ∷ "predicate type" ∷ payload_type ∷ []) _ e)
                at k1)
      ]
