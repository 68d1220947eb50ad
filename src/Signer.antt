-- ===== src/Signer.antt =====
-- pkg/signer/signer.go: the choice of the key by the configured signer. What Signer.Sign,
-- Signer.Keys and Signer.Attest take from cosign, sigstore and the registry library, the copy of
-- cosign under pkg/signer/internal among it, are the operations of `Cosign`.
pub mod Library
pub mod Keys
pub mod Sign
pub mod Attest
pub mod Configured
