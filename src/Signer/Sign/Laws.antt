-- ===== src/Signer/Sign/Laws.antt =====
-- pkg/signer/sign/sign.go: what a success of SignOci means.
use argo_supply_chain_securi.Prelude.{
  String, ◌≡◌, refl, arith, ap, none, some, inl, inr, Option-cases, Bool-cases, true, false, ◌⊎◌,
}
use argo_supply_chain_securi.Go.{Outcome, panic, ok, err, plain}
use argo_supply_chain_securi.Go.Binds.{
  bind-ok, wrap-ok, wrap-value, from_result-ok, pair-ok, world-from_result, deferred-ok,
}
use argo_supply_chain_securi.Config.{Config}
use argo_supply_chain_securi.Oci.{Reference}
use argo_supply_chain_securi.Signer.Library.{SignerVerifier, Cosign}
use argo_supply_chain_securi.Signer.Keys.{KeyOpts, key_opts, signer_from_key_opts}
use argo_supply_chain_securi.Signer.Sign.{
  certified, signer_chain, find_entity, found_entity, sign_digest, sign_entity, sign_reference,
  sign_image, sign_with, sign_oci,
}

module _ {W K : Type 0} (c : Cosign W K) where
  -- The signer that the configuration asks for: that of the key, which also keeps the log where
  -- transparency is on.
  abbrev pub IsChain : Config K → KeyOpts → SignerVerifier c.Key → c.Signer → Type 0
  IsChain cfg ko sv s =
      ((cfg.transparency ≡ true)
        × (r : c.Rekor) × (c.new_rekor ko.rekor_url ≡ inr r)
        × (s ≡ c.new_rekor_signer (certified c sv) r))
      ⊎ ((cfg.transparency ≡ false) × (s ≡ certified c sv))

  -- What the registry has for the reference, or an entity of which nothing is known.
  abbrev pub IsEntityOf : Reference → c.RemoteOptions → c.Entity → Type 0
  IsEntityOf ref opts se =
      ((w : W) × ((c.signed_entity ref opts w).0 ≡ ok se)) ⊎ (se ≡ c.signed_unknown ref none)

  -- The payload of the reference was signed by the configured chain, the signature attached to the
  -- reference's entity, and that written to its repository right after the signing.
  pub record IsPublished (cfg : Config K) (ko : KeyOpts) (sv : SignerVerifier c.Key)
      (ref : Reference) (after : W) : Type 0 where
    pub payload : String
    pub marshalled : c.marshal_payload ref ≡ inr payload
    pub chain : c.Signer
    pub chained : IsChain cfg ko sv chain
    pub signature : c.Signature
    pub before : W
    pub signed : (c.sign chain payload before).0 ≡ ok signature
    pub opts : c.RemoteOptions
    pub entity : c.Entity
    pub known : IsEntityOf ref opts entity
    pub new_entity : c.Entity
    pub attached : c.attach_signature_to_entity entity signature sv ≡ inr new_entity
    pub written :
        c.write_signatures (c.repository ref) new_entity opts (c.sign chain payload before).1
        ≡ (ok tt, after)

  signer_chain-IsChain :
      (cfg : Config K) (ko : KeyOpts) (sv : SignerVerifier c.Key) (w : W) {s : c.Signer}
      → (signer_chain c cfg ko sv w).0 ≡ ok s
      → IsChain cfg ko sv s
  unfolding signer_chain
  signer_chain-IsChain cfg ko sv w h = elim (Bool-cases cfg.transparency) [
    | inl on ↦
        let (r, made, k) = bind-ok _ _ w (pair-ok _ (rw on at h)) in
        inl (on, r, from_result-ok _ w made, ground arith)
    | inr off ↦ inr (off, ground arith)
  ]

  find_entity-IsEntityOf :
      (ref : Reference) (opts : c.RemoteOptions) (w : W) {se : c.Entity}
      → (find_entity c ref opts w).0 ≡ ok se
      → IsEntityOf ref opts se
  unfolding find_entity
  find_entity-IsEntityOf ref opts w {se} h = by_outcome (c.signed_entity ref opts w).0 refl h
    where
      by_outcome :
          (r : Outcome c.Entity)
          → (c.signed_entity ref opts w).0 ≡ r
          → found_entity c ref r ≡ ok se
          → IsEntityOf ref opts se
      by_outcome (ok x) e g = inl (w, cc)
      by_outcome (err x) e g = inr (ground arith)
      by_outcome panic e g = cc

  sign_digest-IsPublished :
      (ref : Reference) (cfg : Config K) (ko : KeyOpts) (sv : SignerVerifier c.Key) (se : c.Entity)
      (opts : c.RemoteOptions) (w : W) {w' : W}
      → IsEntityOf ref opts se
      → sign_digest c ref cfg ko sv se opts w ≡ (ok tt, w')
      → IsPublished cfg ko sv ref w'
  unfolding sign_digest
  sign_digest-IsPublished ref cfg ko sv se opts w known h =
      let (payload, h1, k1) = bind-ok _ _ w h in
      let (s, h2, k2) = bind-ok _ _ _ k1 in
      let (sig, h3, k3) = bind-ok _ _ _ k2 in
      let (new_se, h4, k4) = bind-ok _ _ _ k3 in
      record {
        payload = payload;
        marshalled = from_result-ok _ w (wrap-value _ _ w h1);
        chain = s;
        chained = signer_chain-IsChain cfg ko sv _ h2;
        signature = sig;
        before = _;
        signed = h3;
        opts = opts;
        entity = se;
        known = known;
        new_entity = new_se;
        attached = from_result-ok _ _ h4;
        written = rw (world-from_result (c.attach_signature_to_entity se sig sv) _) at k4;
      }

  sign_entity-IsPublished :
      (ref : Reference) (cfg : Config K) (ko : KeyOpts) (sv : SignerVerifier c.Key)
      (opts : c.RemoteOptions) (w : W) {w' : W}
      → sign_entity c ref cfg ko sv opts w ≡ (ok tt, w')
      → IsPublished cfg ko sv ref w'
  unfolding sign_entity
  sign_entity-IsPublished ref cfg ko sv opts w h =
      let (se, h1, k1) = bind-ok _ _ w h in
      sign_digest-IsPublished ref cfg ko sv se opts _ (find_entity-IsEntityOf ref opts w h1)
        (wrap-ok _ _ _ k1)

  -- The reference has a digest.
  abbrev pub HasDigest : Reference → Type 0
  HasDigest ref = (d : String) × (ref.digest ≡ some d)

  sign_reference-bare :
      (ref : Reference) (cfg : Config K) (ko : KeyOpts) (sv : SignerVerifier c.Key)
      (opts : c.RemoteOptions) (w : W)
      → ref.digest ≡ none
      → (sign_reference c ref cfg ko sv opts w).0 ≡ err (plain "digest not available in oci ref")
  unfolding sign_reference
  sign_reference-bare ref cfg ko sv opts w bare = ground arith

  sign_reference-eq-sign_entity :
      (ref : Reference) (cfg : Config K) (ko : KeyOpts) (sv : SignerVerifier c.Key)
      (opts : c.RemoteOptions) (w : W) {d : String}
      → ref.digest ≡ some d
      → sign_reference c ref cfg ko sv opts w ≡ sign_entity c ref cfg ko sv opts w
  unfolding sign_reference
  sign_reference-eq-sign_entity ref cfg ko sv opts w e = ground arith

  sign_reference-IsPublished :
      (ref : Reference) (cfg : Config K) (ko : KeyOpts) (sv : SignerVerifier c.Key)
      (opts : c.RemoteOptions) (w : W) {w' : W}
      → sign_reference c ref cfg ko sv opts w ≡ (ok tt, w')
      → HasDigest ref × IsPublished cfg ko sv ref w'
  sign_reference-IsPublished ref cfg ko sv opts w h = elim (Option-cases ref.digest) [
    | inl bare ↦ cc (sign_reference-bare ref cfg ko sv opts w bare, ap (λ r. r.0) h)
    | inr (d, e) ↦ (
      (d, e),
      sign_entity-IsPublished ref cfg ko sv opts w
          (rw (sign_reference-eq-sign_entity ref cfg ko sv opts w e) at h),
    )
  ]

  -- The image parses to a reference with a digest, a signer was opened for the key, its signature
  -- published, and the signer closed at the end.
  pub record IsSigned (oci_image : String) (ko : KeyOpts) (cfg : Config K) (w after : W)
      : Type 0 where
    pub ref : Reference
    pub parsed : c.parse_reference oci_image ≡ inr ref
    pub digest : HasDigest ref
    pub sv : SignerVerifier c.Key
    pub opened : (signer_from_key_opts c ko false w).0 ≡ ok sv
    pub last : W
    pub published : IsPublished cfg ko sv ref last
    pub closed : after ≡ c.close sv last

  sign_with-IsSigned :
      (oci_image : String) (cfg : Config K) (ko : KeyOpts) (sv : SignerVerifier c.Key) (w v : W)
      {w' : W}
      → (signer_from_key_opts c ko false w).0 ≡ ok sv
      → sign_with c oci_image cfg ko sv v ≡ (ok tt, w')
      → IsSigned oci_image ko cfg w w'
  unfolding sign_with sign_image
  sign_with-IsSigned oci_image cfg ko sv w v opened h =
      let (body, closed) = deferred-ok _ _ v h in
      let (opts, h1, k1) = bind-ok _ _ v body in
      let (ref, h2, k2) = bind-ok _ _ _ k1 in
      let (digest, published) = sign_reference-IsPublished ref cfg ko sv opts _ k2 in
      record {
        ref = ref;
        parsed = from_result-ok _ _ (wrap-value _ _ _ h2);
        digest = digest;
        sv = sv;
        opened = opened;
        last = _;
        published = published;
        closed = closed;
      }

  -- SignOci returns without an error only for an image that parses to a reference with a digest:
  -- the signer that was opened for the key, the log's too where transparency is on, has signed
  -- the reference's payload, the signature was attached to the registry's entity or to an unknown
  -- one, that was written to the repository, and the signer is closed at the end.
  pub sign_oci-IsSigned :
      (oci_image key_ref : String) (cfg : Config K) (w : W)
      → (sign_oci c oci_image key_ref cfg w).0 ≡ ok tt
      → IsSigned oci_image (key_opts key_ref cfg) cfg w (sign_oci c oci_image key_ref cfg w).1
  unfolding sign_oci
  sign_oci-IsSigned oci_image key_ref cfg w h =
      let (sv, h1, k1) = bind-ok _ _ w (pair-ok (sign_oci c oci_image key_ref cfg w) h) in
      sign_with-IsSigned oci_image cfg (key_opts key_ref cfg) sv w _ (wrap-value _ _ w h1) k1
