-- ===== src/Signer/Keys/Laws.antt =====
-- pkg/signer/sign/sign.go: what a signer that was opened for a key reference holds.
use argo_supply_chain_securi.Prelude.{
  String, ◌≡◌, ◌≢◌, ◌⊎◌, refl, arith, ap, false, Option, none, some, inr, [], ◌∷◌, eq_iff,
}
use argo_supply_chain_securi.Prelude.Dict.{Dict, lookup}
use argo_supply_chain_securi.Go.{ok, wrap}
use argo_supply_chain_securi.Go.Binds.{bind-ok, wrap-value, from_result-ok, pair-ok}
use argo_supply_chain_securi.Signer.Library.{Secret, SignerVerifier, Cosign}
use argo_supply_chain_securi.Signer.Keys.{
  KeyOpts, cosign_key, cosign_pass_key, load_pair, read_secret, cosign_secret_signer, closing,
  check_keys, with_certificate, signer_from_key_ref, signer_from_key_opts,
}

module _ {W K : Type 0} (c : Cosign W K) where
  -- The key was loaded from the two entries of the secret that the reference names.
  pub record IsLoaded (key_ref : String) (w : W) (k : c.Key) : Type 0 where
    pub secret : Secret
    pub read : (c.get_key_pair_secret key_ref w).0 ≡ ok secret
    pub key : String
    pub with_key : lookup cosign_key secret.contents ≡ some key
    pub pass : String
    pub with_pass : lookup cosign_pass_key secret.contents ≡ some pass
    pub loaded : c.load_private_key key pass ≡ inr k

  -- No certificate, or the PKCS11 certificate of the key, whose public key is the key's.
  abbrev pub HasCertificate : c.Key → Option String → Type 0
  HasCertificate k cert =
      (cert ≡ none)
      ⊎ ((x : c.Certificate) × (c.pkcs11_certificate k ≡ some (some x))
          × (pub_key : c.PublicKey) × (c.public_key k ≡ inr pub_key)
          × (c.equal_keys pub_key (c.certificate_key x) ≡ none)
          × (pem : String) × (c.marshal_certificate_to_pem x ≡ inr pem)
          × (cert ≡ some pem))

  load_pair-ok :
      (s : Secret) (key pass : Option String) (w : W) {k : Option c.Key}
      → (load_pair c s key pass w).0 ≡ ok k
      → (key' : String) × (key ≡ some key')
        × (pass' : String) × (pass ≡ some pass')
        × (k' : c.Key) × (c.load_private_key key' pass' ≡ inr k')
        × (k ≡ some k')
  unfolding load_pair
  load_pair-ok s none pass w h = cc
  load_pair-ok s (some key) none w h = cc
  load_pair-ok s (some key) (some pass) w h =
      let (k', made, e) = bind-ok _ _ w (pair-ok _ h) in
      (key, refl, pass, refl, k', from_result-ok _ w made, cc (ap (λ r. r.0) e))

  read_secret-ok :
      (s : Secret) (d : Dict String) (w : W) {k : Option c.Key}
      → (read_secret c s d w).0 ≡ ok k
      → (load_pair c s (lookup cosign_key d) (lookup cosign_pass_key d) w).0 ≡ ok k
  unfolding read_secret
  read_secret-ok s [] w h = cc
  read_secret-ok s (x ∷ d) w h = h

  cosign_secret_signer-IsLoaded :
      (key_ref : String) (w : W) {k : Option c.Key}
      → (cosign_secret_signer c key_ref w).0 ≡ ok k
      → (k' : c.Key) × (k ≡ some k') × IsLoaded key_ref w k'
  unfolding cosign_secret_signer
  cosign_secret_signer-IsLoaded key_ref w h =
      let (s, read, e) = bind-ok _ _ w (pair-ok (cosign_secret_signer c key_ref w) h) in
      let pair = read_secret-ok s s.contents _ (ap (λ r. r.0) e) in
      let (key, a, pass, b, k', made, d) = load_pair-ok s _ _ _ pair in
      (
        k',
        d,
        record {
          secret = s;
          read = read;
          key = key;
          with_key = a;
          pass = pass;
          with_pass = b;
          loaded = made;
        },
      )

  with_certificate-ok :
      (k : c.Key) (w : W) {sv : SignerVerifier c.Key}
      → (with_certificate c (some k) w).0 ≡ ok sv
      → (sv.key ≡ some k) × HasCertificate k sv.cert
  unfolding with_certificate check_keys closing
  with_certificate-ok k w h = ground arith

  signer_from_key_ref-IsLoaded :
      (key_ref : String) (w : W) {sv : SignerVerifier c.Key}
      → (signer_from_key_ref c key_ref false w).0 ≡ ok sv
      → (k : c.Key) × (sv.key ≡ some k) × IsLoaded key_ref w k × HasCertificate k sv.cert
  unfolding signer_from_key_ref
  signer_from_key_ref-IsLoaded key_ref w h =
      let (k, opened, e) = bind-ok _ _ w (pair-ok (signer_from_key_ref c key_ref false w) h) in
      let (k', same, loaded) = cosign_secret_signer-IsLoaded key_ref w (wrap-value _ _ w opened) in
      let (mine, cert) = with_certificate-ok k' _ (ap (λ r. r.0) (rw same at e)) in
      (k', mine, loaded, cert)

  signer_from_key_opts-eq :
      (ko : KeyOpts) (w : W)
      → ko.key_ref ≢ ""
      → signer_from_key_opts c ko false w
        ≡ wrap "failed to createte keyed signer " (signer_from_key_ref c ko.key_ref false) w
  unfolding signer_from_key_opts
  signer_from_key_opts-eq ko w h = ground (arith, eq_iff ko.key_ref "")

  -- A signer that was opened for a key reference, the empty one apart, holds the private key that
  -- was loaded from the secret's entries cosign.key and cosign.password, and no certificate but
  -- the PKCS11 certificate of that key.
  pub signer_from_key_opts-IsLoaded :
      (ko : KeyOpts) (w : W) {sv : SignerVerifier c.Key}
      → ko.key_ref ≢ ""
      → (signer_from_key_opts c ko false w).0 ≡ ok sv
      → (k : c.Key) × (sv.key ≡ some k) × IsLoaded ko.key_ref w k × HasCertificate k sv.cert
  signer_from_key_opts-IsLoaded ko w named h =
      signer_from_key_ref-IsLoaded ko.key_ref w
        (wrap-value _ _ w (rw (signer_from_key_opts-eq ko w named) at h))
